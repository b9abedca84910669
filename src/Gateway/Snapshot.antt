-- ===== src/Gateway/Snapshot.antt =====
-- The snapshot that the viewer is shown: hive/internal/gateway/gateway.go, lines 367 to 369 and 428
-- to 471. A publication is what the merge reads of a backend.
use herdr_hive.Base.{
  ℕ, ◌+◌, Bool, true, false, Option, none, some, List, [], ◌∷◌, ◌++◌, if◌then◌else◌, Bytes,
  bytes_eq, codes,
}
use herdr_hive.Json.{
  Value, null, bool, num, str, arr, obj, Items, nil, cons, Fields, end, field, array, string_val,
  get, set, append_items, count_items, transform,
}

pub record Publication : Type 0 where
  pub name : Bytes
  pub label : Bytes
  pub prefix : Bytes
  pub snapshot : Value
  pub is_active : Bool

fields_from : List (Bytes × Value) → Fields
fields_from [] = end
fields_from ((k, v) ∷ rest) = field k v (fields_from rest)

-- `emptySnapshot`
unfoldable pub empty_snapshot : Fields
unfolding fields_from
empty_snapshot = fields_from (
    (codes "boot_id", str [])
    ∷ (codes "revision", num 0)
    ∷ (codes "config_diagnostic", null)
    ∷ (codes "product_announcement", null)
    ∷ (codes "update_available", null)
    ∷ (codes "update_install_command", str [])
    ∷ (codes "server_keybindings_toml", null)
    ∷ (codes "latest_release_notes_available", bool false)
    ∷ (codes "integration_updates_available", bool false)
    ∷ (codes "worktree_directory", str [])
    ∷ (codes "release_notes", null)
    ∷ (codes "focused_workspace_id", null)
    ∷ (codes "focused_tab_id", null)
    ∷ (codes "focused_pane_id", null)
    ∷ (codes "tab_bar_right", arr nil)
    ∷ (codes "tab_bar_right_separator", str (codes " | "))
    ∷ (codes "agent_view_label", null)
    ∷ (codes "agent_order", arr nil)
    ∷ (codes "workspaces", arr nil)
    ∷ (codes "tabs", arr nil)
    ∷ (codes "panes", arr nil)
    ∷ (codes "agents", arr nil)
    ∷ (codes "commands", arr nil)
    ∷ [])

abbrev pub lists : List Bytes
lists = codes "workspaces" ∷ codes "tabs" ∷ codes "panes" ∷ codes "agents" ∷ []

abbrev pub agent_order : Bytes
agent_order = codes "agent_order"

fields_of : Value → Fields
fields_of (obj fs) = fs
fields_of _ = end

-- The identifiers of a publication, made unique by its prefix.
unfoldable pub renamed : Publication → Fields
unfolding fields_of
renamed p = fields_of (transform (λ id. p.prefix ++ id) p.snapshot)

-- `[name/label]`, without the label if it is the default.
unfoldable pub display_name : Publication → Bytes
display_name p = if bytes_eq p.label (codes "default") then p.name else p.name ++ (b'/' ∷ p.label)

-- The changes to an entry of the list `k` that has `n` entries already.
unfoldable pub presented : Publication → Bytes → ℕ → Fields → Fields
presented p k n m =
    let m1 = if p.is_active then m else set (codes "focused") (bool false) m in
    if bytes_eq k (codes "workspaces")
    then set (codes "number") (num (n + 1)) (
        set (codes "custom_label") (bool true) (
          set (codes "label")
            (str ((b'[' ∷ display_name p) ++ (codes "] " ++ string_val (get (codes "label") m1))))
            m1))
    else m1

-- The entries of one list of one publication, behind those of the publications before it.
unfoldable pub merge_entries : Publication → Bytes → Items → Items → Items
merge_entries p k nil out = out
merge_entries p k (cons (obj m) rest) out =
    merge_entries p k rest (append_items out (cons (obj (presented p k (count_items out) m)) nil))
merge_entries p k (cons _ rest) out = merge_entries p k rest out

merge_list : Publication → Fields → Bytes → Fields → Fields
merge_list p s k out = set k (arr (merge_entries p k (array (get k s)) (array (get k out)))) out

merge_lists : Publication → Fields → List Bytes → Fields → Fields
unfolding merge_list
merge_lists p s [] out = out
merge_lists p s (k ∷ ks) out = merge_lists p s ks (merge_list p s k out)

-- One publication.
unfoldable pub merge : Publication → Fields → Fields
unfolding merge_lists
merge p out =
    let s = renamed p in
    let out1 = merge_lists p s lists out in
    set agent_order (arr (append_items (array (get agent_order out1)) (array (get agent_order s))))
      out1

unfoldable pub merge_all : List Publication → Fields → Fields
merge_all [] out = out
merge_all (p ∷ ps) out = merge_all ps (merge p out)

clear_lists : List Bytes → Fields → Fields
clear_lists [] out = out
clear_lists (k ∷ ks) out = clear_lists ks (set k (arr nil) out)

-- The publication whose fields outside the lists are shown.
unfoldable pub base_of : Option Publication → Fields
base_of none = empty_snapshot
base_of (some p) = renamed p

too_many : Bytes
too_many =
    codes
      "Hive gateway shows the first 8 shared sessions; use a sharing ID for the remaining sessions."

-- The snapshot that `publish` writes, from the active publication and all of them in their order.
unfoldable pub merged : Option Publication → List Publication → Bytes → ℕ → Bool → Fields
unfolding clear_lists too_many
merged active all boot revision crowded =
    let out = merge_all all (clear_lists lists (set agent_order (arr nil) (base_of active))) in
    let out1 = set (codes "revision") (num revision) (set (codes "boot_id") (str boot) out) in
    let out2 = if crowded then set (codes "config_diagnostic") (str too_many) out1 else out1 in
    set (codes "integration_updates_available") (bool false) (
      set (codes "latest_release_notes_available") (bool false)
        (set (codes "update_available") null (set (codes "product_announcement") null out2)))
