-- ===== src/Gateway/Alike.antt =====
-- Changes of a session that soundness does not speak of, and the writes to the viewer.
use herdr_hive.Base.{
  ℕ, ◌≤◌, ◌≡◌, ◌≢◌, refl, sym, ap, ◌∙◌, inl, inr, true, Option, none, some, ◌==◌, Bytes, length,
  Bool-cases, if_elim, ==_iff,
}
use herdr_hive.Base.Dict.{lookup}
use herdr_hive.Json.{StdLib}
use herdr_hive.Gateway.{Backend, Error, unfinished, Session, Outcome, put, is_current, write_down}
use herdr_hive.Gateway.Surface.{blank_surface, send_frame, send_complete, send_active, send_surface}
use herdr_hive.Gateway.Publish.{replay_effects}
use herdr_hive.Gateway.Sound.{
  IsSound, Fine, SameSources, SameSources-IsSound, write_down-same, then_do-Fine,
}

-- The sources, their identities and the active backend are the same.
pub record Alike (g h : Session) : Type 0 where
  pub source : (a : ℕ) → (h.heap a).source ≡ (g.heap a).source
  pub sources : h.sources ≡ g.sources
  pub active : h.active ≡ g.active
  pub next : h.next ≡ g.next

pub Alike-IsSound : {g h : Session} → Alike g h → IsSound g → IsSound h
Alike-IsSound s i = record {
  keyed = λ id b e. ap (λ k. k.id) (s.source b) ∙ i.keyed id b (ap (lookup id) (sym s.sources) ∙ e);
  active_in = λ b e. rw (s.source b, s.sources) (i.active_in b (sym s.active ∙ e));
  fresh = λ id b e. rw s.next (i.fresh id b (ap (lookup id) (sym s.sources) ∙ e));
}

pub Alike-is_current :
    {g h : Session} (b : ℕ) → Alike g h → is_current b g ≡ true → is_current b h ≡ true
Alike-is_current b s c = unfold is_current in rw (s.source b, s.sources) c

pub put_source :
    (heap : ℕ → Backend) (b : ℕ) (new : Backend)
    → new.source ≡ (heap b).source
    → (a : ℕ) → (put heap b new a).source ≡ (heap a).source
put_source heap b new e a = elim (Bool-cases (a == b)) [
  | inl h ↦ rw h (e ∙ ap (λ k. (heap k).source) (sym ((==_iff a b).0 h)))
  | inr h ↦ rw h refl
]

pub still : (g : Session) (n : ℕ) → IsSound g → length g.sources ≤ n → Fine n (none, g)
still g n i h = record { sound = i; fewer = h; ended = λ e. cc }

pub refused :
    (e : Error) (g : Session) (n : ℕ)
    → e ≢ unfinished
    → IsSound g
    → length g.sources ≤ n
    → Fine n (some e, g)
refused e g n d i h = record { sound = i; fewer = h; ended = λ q. d (some_injective q) }
  where
    get_error : Option Error → Error
    get_error none = unfinished
    get_error (some x) = x

    some_injective : {x y : Error} → some x ≡ some y → x ≡ y
    some_injective q = ap get_error q

-- A step that leaves the sources alone and comes to its end.
abbrev pub Quiet : Session → Outcome → Type 0
Quiet g r = SameSources g r.1 × (r.0 ≢ some unfinished)

pub Quiet-Fine :
    (g : Session) (r : Outcome) (n : ℕ) → Quiet g r → IsSound g → length g.sources ≤ n → Fine n r
Quiet-Fine g r n q i h = record {
  sound = SameSources-IsSound q.0 i;
  fewer = rw q.0.sources h;
  ended = q.1;
}

module _ (n : ℕ) where
  -- What keeps every sound session of at most `n` sources fine.
  abbrev pub Keeps : (Session → Outcome) → Type 0
  Keeps f = (g : Session) → IsSound g → length g.sources ≤ n → Fine n (f g)

  pub write_down-Fine : (x : Bytes) → Keeps (write_down x)
  write_down-Fine x g i h = Quiet-Fine g (write_down x g) n (write_down-same x g) i h

  pub replay_effects-Fine : Keeps replay_effects
  unfolding replay_effects
  replay_effects-Fine g i h =
      if_elim (Fine n) g.surface_active _ _
        (then_do-Fine n _ _ (write_down-Fine _ g i h) (λ g1 i1 h1.
          then_do-Fine n _ _ (write_down-Fine _ g1 i1 h1) (λ g2 i2 h2. write_down-Fine _ g2 i2 h2)))
        (still g n i h)

  pub blank_surface-Fine : Keeps blank_surface
  unfolding blank_surface
  blank_surface-Fine g i h =
      write_down-Fine _ _
        (Alike-IsSound {g = g}
          (record { source = λ a. refl; sources = refl; active = refl; next = refl }) i)
        h

  module _ (l : StdLib) where
    send_frame-Fine : (b projection : ℕ) (p : Option Bytes) → Keeps (send_frame l b projection p)
    unfolding send_frame
    send_frame-Fine b projection none g i h = refused _ g n (λ e. cc) i h
    send_frame-Fine b projection (some p) g i h =
        then_do-Fine n _ _
          (write_down-Fine _ _
            (Alike-IsSound {g = g}
              (record { source = λ a. refl; sources = refl; active = refl; next = refl }) i)
            h)
          (λ g2 i2 h2.
            still _ n
              (Alike-IsSound {g = g2}
                (record { source = λ a. refl; sources = refl; active = refl; next = refl }) i2)
              h2)

    send_complete-Fine : (b : ℕ) (o : Option Bytes) → Keeps (send_complete l b o)
    unfolding send_complete
    send_complete-Fine b none g i h = still g n i h
    send_complete-Fine b (some raw) g i h =
        if_elim (Fine n) _ _ _ (still g n i h) (send_frame-Fine b _ _ g i h)

    send_active-Fine : (o : Option ℕ) → Keeps (send_active l o)
    unfolding send_active
    send_active-Fine none g i h = blank_surface-Fine g i h
    send_active-Fine (some b) g i h = send_complete-Fine b _ g i h

    pub send_surface-Fine : Keeps (send_surface l)
    unfolding send_surface
    send_surface-Fine g i h =
        if_elim (Fine n) g.surface_active _ _ (send_active-Fine g.active g i h) (still g n i h)
