-- ===== src/Hive/Streams.antt =====
-- Opening streams to a publisher: gateway.go, 83-153 and 170-203, and api.go, 16-64.
use herdr_hive.Base.{
  ℕ, ◌+◌, ◌-◌, ◌==◌, Bool, true, false, ◌&&◌, ◌||◌, not, Option, none, some, List, [], ◌∷◌, ltb,
  leb, if◌then◌else◌, Bytes, bytes_eq, length, codes,
}
use herdr_hive.Base.Dict.{Dict, lookup}
use herdr_hive.Hive.Shares.{Conn, Binding, Server}

-- `s.shares[b.share.ID] == b`
unfoldable pub is_current : Option Binding → Binding → Bool
is_current none b = false
is_current (some d) b = d.serial == b.serial

-- A field of the binding is written, where the map still has it; the object is the map's.
unfoldable pub update_binding : (Binding → Binding) → Bytes → ℕ → Dict Binding → Dict Binding
update_binding f id serial [] = []
update_binding f id serial ((k, b) ∷ shares) =
    (k, if bytes_eq k id && b.serial == serial then f b else b) ∷ update_binding f id serial shares

unfoldable pub write_binding : (Binding → Binding) → Binding → Server → Server
write_binding f b s = record s { shares = update_binding f b.share.id b.serial s.shares }

pub data Opening : Type 0 where
  changed : Opening
  pending : Opening
  opens : Opening

unfoldable pub is_opening : Option Binding → Bool
is_opening none = false
is_opening (some b) = b.opening

-- The first part of `openGatewaySource`.
unfoldable pub begin_open : Binding → Server → Server × Opening
begin_open b s =
    if not (is_current (lookup b.share.id s.shares) b)
    then (s, changed)
    else if is_opening (lookup b.share.id s.shares)
    then (s, pending)
    else (write_binding (λ d. record d { opening = true }) b s, opens)

-- The opening goroutine ends.
unfoldable pub end_open : Binding → Server → Server
end_open b s = write_binding (λ d. record d { opening = false }) b s

unfoldable pub has_channel : ℕ → List ℕ → Bool
has_channel ch [] = false
has_channel ch (d ∷ ds) = ch == d || has_channel ch ds

unfoldable pub add_channel : ℕ → List ℕ → List ℕ
add_channel ch active = if has_channel ch active then active else ch ∷ active

unfoldable pub remove_channel : ℕ → List ℕ → List ℕ
remove_channel ch [] = []
remove_channel ch (d ∷ ds) = if ch == d then remove_channel ch ds else d ∷ remove_channel ch ds

-- The last part: the channel is open, and the sharing is looked up again. False is `sharing changed`.
unfoldable pub attach : Binding → ℕ → Server → Server × Bool
attach b ch s =
    if is_current (lookup b.share.id s.shares) b
    then (
      record (write_binding (λ d. record d { active = add_channel ch d.active }) b s) {
        upstreams = s.upstreams + 1;
      },
      true,
    )
    else (s, false)

-- `wrapped.close`, once.
unfoldable pub detach : Binding → ℕ → Server → Server
detach b ch s = record (write_binding (λ d. record d { active = remove_channel ch d.active }) b s) {
  upstreams = s.upstreams - 1;
}

-- The request of an API channel.
pub record Target : Type 0 where
  pub share : Bytes
  pub generation : Bytes

unfoldable pub api_target : Conn → Target → Option Binding → Option Binding
api_target c t none = none
api_target c t (some b) =
    if not b.share.api
      || not (bytes_eq b.share.generation t.generation)
      || bytes_eq b.conn.owner c.owner
    then none
    else some b

-- The admission of an API channel; `extra` is its data and `decoded` what they decode to.
unfoldable pub admit_api : Conn → Bytes → Option Target → Server → Option Binding
unfolding api_target
admit_api c extra none s = none
admit_api c extra (some t) s =
    if not (bytes_eq c.user (codes "hive")) || ltb 4096 (length extra) || bytes_eq t.generation []
    then none
    else api_target c t (lookup t.share s.shares)

-- After the reverse channel has opened: both channels become active, unless the sharing has changed.
unfoldable pub attach_api : Binding → Target → ℕ → ℕ → Server → Server × Bool
attach_api b t ch remote s =
    if is_current (lookup t.share s.shares) b
    then (
      write_binding (λ d. record d { active = add_channel remote (add_channel ch d.active) }) b s,
      true,
    )
    else (s, false)

unfoldable pub failure_code_bytes : Bytes → Bool
failure_code_bytes [] = true
failure_code_bytes (c ∷ cs) =
    (c == b'_' || (leb b'a' c && leb c b'z') || (leb b'0' c && leb c b'9')) && failure_code_bytes cs

-- `validFailureCode`
unfoldable pub valid_failure_code : Bytes → Bool
valid_failure_code code = not (length code == 0) && leb (length code) 64 && failure_code_bytes code

-- A report: its code and, where it has one, whether a retry may help.
pub record Report : Type 0 where
  pub code : Bytes
  pub retryable : Option Bool

pub record Failure : Type 0 where
  pub code : Bytes
  pub retryable : Bool

unfoldable pub accept_failure : Bytes → Option Bool → Option Failure → Option Failure × Bool
accept_failure code none failure = (failure, false)
accept_failure code (some r) (some f) = (some f, false)
accept_failure code (some r) none = (some (record { code = code; retryable = r }), true)

-- One request of `readRequests`: the failure after it, and the reply.
unfoldable pub read_request : Bytes → Bytes → Option Report → Option Failure → Option Failure × Bool
unfolding accept_failure
read_request kind payload none failure = (failure, false)
read_request kind payload (some r) failure =
    if bytes_eq kind (codes "stream-failure@herdr-hive/v1")
      && leb (length payload) 256
      && valid_failure_code r.code
    then accept_failure r.code r.retryable failure
    else (failure, false)
