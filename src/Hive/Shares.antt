-- ===== src/Hive/Shares.antt =====
-- Publishing and withdrawing sessions, and who sees them: server.go, 34-58, 232-307 and 346-371.
use herdr_hive.Base.{
  ℕ, ◌+◌, ◌/◌, ◌%◌, ◌==◌, Bool, true, false, ◌&&◌, ◌||◌, not, Option, none, some, List, [], ◌∷◌,
  ◌++◌, ltb, leb, if◌then◌else◌, Bytes, bytes_eq, length, take, codes,
}
use herdr_hive.Base.Dict.{Dict, lookup, insert}
use herdr_hive.Registry.{Registry, Named, name_device}
use herdr_hive.Registry.Named.{named, full, unsaved, stuck}

pub record Share : Type 0 where
  pub key : Bytes
  pub label : Bytes
  pub id : Bytes
  pub name : Bytes
  pub api : Bool
  pub generation : Bytes

-- A connection: its number, the user, and the owner, which is the fingerprint of its key.
pub record Conn : Type 0 where
  pub number : ℕ
  pub user : Bytes
  pub owner : Bytes

-- `serial` tells the bindings apart, as their addresses do.
pub record Binding : Type 0 where
  pub serial : ℕ
  pub share : Share
  pub conn : Conn
  pub active : List ℕ
  pub opening : Bool

pub record Server : Type 0 where
  pub registry : Registry
  pub shares : Dict Binding
  pub owners : Dict Conn
  pub next : ℕ
  -- `gatewayUpstreams`, and the slots that viewers of the gateway hold.
  pub upstreams : ℕ
  pub viewers : ℕ

unfoldable pub same_conn : Conn → Conn → Bool
same_conn c d = c.number == d.number

-- `unicode.IsControl` in UTF-8: the controls below 128, and the two bytes of those from 128 to 159.
unfoldable pub has_control : Bytes → Bool
has_control [] = false
has_control (b ∷ []) = ltb b 32 || b == 127
has_control (b ∷ d ∷ bs) =
    ltb b 32 || b == 127 || (b == 194 && leb 128 d && leb d 159) || has_control (d ∷ bs)

-- `validLabel`
unfoldable pub valid_label : Bytes → Bool
valid_label v = ltb 0 (length v) && leb (length v) 128 && not (has_control v)

unfoldable pub is_hex : ℕ → Bool
is_hex b = leb b'0' b && leb b b'9' || leb b'a' b && leb b b'f' || leb b'A' b && leb b b'F'

unfoldable pub all_hex : Bytes → Bool
all_hex [] = true
all_hex (b ∷ bs) = is_hex b && all_hex bs

unfoldable pub has_key : Bytes → List Share → Bool
has_key k [] = false
has_key k (v ∷ vs) = bytes_eq v.key k || has_key k vs

-- The loop of `publish` over the shares; `seen` are those before. A key of 32 hexadecimal digits is
-- one that `hex.DecodeString` takes.
unfoldable pub valid_shares : List Share → List Share → Bool
valid_shares seen [] = true
valid_shares seen (v ∷ vs) =
    length v.key == 32
    && valid_label v.label
    && not (has_key v.key seen)
    && all_hex v.key
    && valid_shares (v ∷ seen) vs

unfoldable pub hex_digit : ℕ → ℕ
hex_digit n = if ltb n 10 then b'0' + n else 87 + n

-- `hex.EncodeToString`
unfoldable pub hex : Bytes → Bytes
hex [] = []
hex (b ∷ bs) = hex_digit (b / 16) ∷ hex_digit (b % 16) ∷ hex bs

-- The stable identifier of an owner's session.
unfoldable pub share_id : (Bytes → Bytes) → Bytes → Bytes → Bytes
share_id sha256 owner key = codes "s-" ++ hex (take 12 (sha256 (owner ++ (0 ∷ key))))

pub record Publish : Type 0 where
  pub version : ℕ
  pub name : Bytes
  pub shares : List Share

-- `crypto/sha256`, whether the registry's file is saved, and `rand.Read`: none when it fails.
pub record Surroundings : Type 0 where
  pub sha256 : Bytes → Bytes
  pub saved : Bool
  pub nonce : Option Bytes

unfoldable pub valid_publication : Publish → Bool
valid_publication p =
    p.version == 1
    && valid_label p.name
    && not (length p.shares == 0)
    && leb (length p.shares) 32
    && valid_shares [] p.shares

unfoldable pub has_conn : Option Conn → Bool
has_conn none = false
has_conn (some c) = true

unfoldable pub published_share : (Bytes → Bytes) → Conn → Bytes → Bytes → Share → Share
published_share sha256 c name nonce v = record v {
  id = share_id sha256 c.owner v.key;
  name = name;
  generation = hex nonce;
}

unfoldable pub new_binding : ℕ → Share → Conn → Binding
new_binding serial v c = record {
  serial = serial;
  share = v;
  conn = c;
  active = [];
  opening = false;
}

unfoldable pub bind : Share → Conn → Server → Server
bind v c s = record s { shares = insert v.id (new_binding s.next v c) s.shares; next = s.next + 1 }

-- The loop that binds the shares, with the shares as they are returned.
unfoldable pub bind_all : (Share → Share) → Conn → List Share → Server → Server × List Share
unfolding bind
bind_all made c [] s = (s, [])
bind_all made c (v ∷ vs) s = let r = bind_all made c vs (bind (made v) c s) in (r.0, made v ∷ r.1)

unfoldable pub own : Conn → Server × List Share → Server × Option (List Share)
own c (s, out) = (record s { owners = insert c.owner c s.owners }, some out)

unfoldable pub with_nonce :
    Surroundings → Conn → Publish → Bytes → Option Bytes → Server → Server × Option (List Share)
unfolding own
with_nonce e c p name none s = (s, none)
with_nonce e c p name (some nonce) s =
    own c (bind_all (published_share e.sha256 c name nonce) c p.shares s)

unfoldable pub with_name :
    Surroundings → Conn → Publish → Server → Named → Server × Option (List Share)
unfolding with_nonce
with_name e c p s (named name) = with_nonce e c p name e.nonce s
with_name e c p s full = (s, none)
with_name e c p s (unsaved name) = (s, none)
with_name e c p s stuck = (s, none)

-- `publish`; none is the error.
unfoldable pub publish : Surroundings → Conn → Publish → Server → Server × Option (List Share)
unfolding with_name
publish e c p s =
    let r = name_device s.registry c.owner p.name e.saved in
    if not (valid_publication p)
    then (s, none)
    else if has_conn (lookup c.owner s.owners)
    then (s, none)
    else with_name e c p (record s { registry = r.0 }) r.1

unfoldable pub drop_shares : Conn → Dict Binding → Dict Binding
drop_shares c [] = []
drop_shares c ((id, b) ∷ shares) =
    if same_conn b.conn c then drop_shares c shares else (id, b) ∷ drop_shares c shares

unfoldable pub drop_owners : Conn → Dict Conn → Dict Conn
drop_owners c [] = []
drop_owners c ((id, d) ∷ owners) =
    if same_conn d c then drop_owners c owners else (id, d) ∷ drop_owners c owners

-- The channels to close.
unfoldable pub closing : Conn → Dict Binding → List ℕ
closing c [] = []
closing c ((id, b) ∷ shares) =
    if same_conn b.conn c then b.active ++ closing c shares else closing c shares

-- `unpublish`
unfoldable pub unpublish : Conn → Server → Server × List ℕ
unpublish c s = (
  record s { shares = drop_shares c s.shares; owners = drop_owners c s.owners },
  closing c s.shares,
)

-- `<` on strings
unfoldable pub before : Bytes → Bytes → Bool
before xs [] = false
before [] (y ∷ ys) = true
before (x ∷ xs) (y ∷ ys) = if x == y then before xs ys else ltb x y

-- `sort.Slice` by the identifier.
unfoldable pub place : Share → List Share → List Share
place v [] = v ∷ []
place v (w ∷ ws) = if before v.id w.id then v ∷ w ∷ ws else w ∷ place v ws

unfoldable pub sort_shares : List Share → List Share
sort_shares [] = []
sort_shares (v ∷ vs) = place v (sort_shares vs)

unfoldable pub all_shares : Dict Binding → List Share
all_shares [] = []
all_shares ((id, b) ∷ shares) = b.share ∷ all_shares shares

unfoldable pub others_shares : Bytes → Dict Binding → List Share
others_shares owner [] = []
others_shares owner ((id, b) ∷ shares) =
    if bytes_eq b.conn.owner owner
    then others_shares owner shares
    else b.share ∷ others_shares owner shares

-- `list`
unfoldable pub list : Server → List Share
list s = sort_shares (all_shares s.shares)

-- What `list --json` shows a consumer in `execute`; the sources of `aggregate` are the same shares in
-- the order of the map.
unfoldable pub visible : Conn → Server → List Share
visible c s = sort_shares (others_shares c.owner s.shares)

-- The binding that a consumer may use: not one of its own device.
unfoldable pub usable : Conn → Option Binding → Option Binding
usable c none = none
usable c (some b) = if bytes_eq b.conn.owner c.owner then none else some b

-- The admission of `execute` by the user's name.
unfoldable pub admit : Conn → Server → Option Binding
admit c s = usable c (lookup c.user s.shares)
