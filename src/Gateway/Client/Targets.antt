-- ===== src/Gateway/Client/Targets.antt =====
-- What the identifiers of a request resolve to in a sound session.
use herdr_hive.Base.{
  starts_with, ℕ, ◌≡◌, refl, ap, Bool, true, false, ◌&&◌, not, Option, none, some, List, [], ◌∷◌,
  ◌==◌, if◌then◌else◌, Bytes, length, drop, arith, if_elim, ==_iff,
}
use herdr_hive.Base.Dict.{Dict, lookup}
use herdr_hive.Wire.Codec.{is_empty}
use herdr_hive.Gateway.{Session, is_handle, is_current}
use herdr_hive.Gateway.Sound.{IsSound}
use herdr_hive.Gateway.Ends.{lookup→current}
use herdr_hive.Gateway.Client.{resolve_in, resolve, aim, target_of}

-- A conditional, each branch under its condition.
pub if_case {ℓ ℓ'} :
    {A : Type ℓ} (P : A → Type ℓ') (b : Bool) (x y : A)
    → (b ≡ true → P x)
    → (b ≡ false → P y)
    → P (if b then x else y)
if_case P true x y p q = p refl
if_case P false x y p q = q refl

-- If there is a backend, it is current.
abbrev pub Good : Session → Option ℕ → Type 0
Good g o = (b : ℕ) → o ≡ some b → is_current b g ≡ true

pub handle_some : (o : Option ℕ) (b : ℕ) → is_handle o b ≡ true → o ≡ some b
handle_some none b h = cc
handle_some (some a) b h = ap some ((==_iff a b).0 h)

pub active-Good : (g : Session) → IsSound g → Good g g.active
active-Good g i b e = lookup→current b g (i.active_in b e)

pub key-current :
    (g : Session) (key : Bytes) (b : ℕ)
    → IsSound g
    → lookup key g.sources ≡ some b
    → is_current b g ≡ true
key-current g key b i e = lookup→current b g (rw (i.keyed key b e) e)

-- What an identifier resolves to.
unfoldable pub Names : Session → Option (ℕ × Bytes) → Type 0
Names g none = Unit {0}
Names g (some (b, local)) = is_current b g ≡ true

pub resolve_in-Names :
    (sources : Dict ℕ) (g : Session) (id : Bytes) → IsSound g → Names g (resolve_in sources g id)
unfolding resolve_in Names
resolve_in-Names [] g id i = tt
resolve_in-Names ((key, _) ∷ rest) g id i =
    found-Names (resolve_in-Names rest g id i) (lookup key g.sources) refl
  where
    found-Names :
        Names g (resolve_in rest g id)
        → (o : Option ℕ) → lookup key g.sources ≡ o
        → Names g (elim o [
          | none ↦ resolve_in rest g id
          | some b ↦
              if not (is_empty (g.heap b).prefix) && starts_with (g.heap b).prefix id
              then some (b, drop (length (g.heap b).prefix) id)
              else resolve_in rest g id
        ])
    found-Names q none e = q
    found-Names q (some b) e =
        if_elim (Names g) (not (is_empty (g.heap b).prefix) && starts_with (g.heap b).prefix id) _ _
          (key-current g key b i e) q

pub resolve-Names : (g : Session) (id : Bytes) → IsSound g → Names g (resolve g id)
unfolding resolve
resolve-Names g id i = resolve_in-Names g.sources g id i

-- What the identifiers of a request aim at.
unfoldable pub Aims : Session → Option (Option ℕ) → Type 0
Aims g none = Unit {0}
Aims g (some target) = Good g target

pub aim-Aims :
    (g : Session) (target : Option ℕ) (o : Option (ℕ × Bytes)) → Names g o → Aims g (aim target o)
unfolding aim Names Aims
aim-Aims g none none c = tt
aim-Aims g (some t) none c = tt
aim-Aims g none (some (b, local)) c = λ a e. ground arith
aim-Aims g (some t) (some (b, local)) c = if_elim (Aims g) (t == b) _ _ (λ a e. ground arith) tt

pub target_of-Aims :
    (g : Session) (names : List Bytes) (target : Option ℕ)
    → IsSound g
    → Good g target
    → Aims g (target_of g names target)
unfolding target_of Aims
target_of-Aims g [] target i c = c
target_of-Aims g (id ∷ rest) target i c =
    step-Aims (λ found a. target_of-Aims g rest found i a) (aim target (resolve g id))
      (aim-Aims g target _ (resolve-Names g id i))
  where
    step-Aims :
        ((found : Option ℕ) → Good g found → Aims g (target_of g rest found))
        → (o : Option (Option ℕ)) → Aims g o
        → Aims g (elim o [ none ↦ none | some found ↦ target_of g rest found ])
    step-Aims q none a = tt
    step-Aims q (some found) a = q found a
