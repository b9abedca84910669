-- ===== src/Tests/HiveTests.antt =====
-- Two devices that publish a session each.
use herdr_hive.Base.{
  ◌≡◌, refl, true, false, some, List, [], ◌∷◌, codes, bytes_eq_iff, arith, replicate,
}
use herdr_hive.Base.Dict.{lookup}
use herdr_hive.Hive.Shares.{Conn, Binding, Server, Publish, Surroundings, unpublish}
use herdr_hive.Hive.Streams.{changed, begin_open, attach}
use herdr_hive.Hive.Catalog.{IsMap, catalog, Op, publishes, withdraws, run, replay, run-replay}
use herdr_hive.Hive.Stale.{IsNumbered, attach-withdrawn}

abbrev empty : Server
empty = record {
  registry = record { names = []; file = [] };
  shares = [];
  owners = [];
  next = 0;
  upstreams = 0;
  viewers = 0;
}

abbrev laptop : Conn
laptop = record { number = 1; user = codes "bee"; owner = codes "k1" }

abbrev offered : Publish
offered = record {
  version = 1;
  name = codes "laptop";
  shares =
      record {
        key = replicate 32 b'a';
        label = codes "main";
        id = [];
        name = [];
        api = false;
        generation = [];
      }
      ∷ [];
}

abbrev surroundings : Surroundings
surroundings = record { sha256 = λ b. b; saved = true; nonce = some (1 ∷ 2 ∷ []) }

abbrev calls : List Op
calls =
    publishes surroundings laptop offered
    ∷ withdraws laptop
    ∷ publishes surroundings laptop offered
    ∷ []

run-replay_example : catalog (run calls empty).0 ≡ replay (run calls empty).1 (catalog empty)
unfolding IsMap
run-replay_example = run-replay calls empty tt

abbrev binding : Binding
binding = record {
  serial = 0;
  share = record {
    key = replicate 32 b'a';
    label = codes "main";
    id = codes "s-1";
    name = codes "laptop";
    api = false;
    generation = codes "g1";
  };
  conn = laptop;
  active = [];
  opening = false;
}

abbrev serving : Server
serving = record empty {
  shares = (codes "s-1", binding) ∷ [];
  owners = (codes "k1", laptop) ∷ [];
  next = 1;
}

serving-IsNumbered : IsNumbered serving
unfolding IsMap lookup
serving-IsNumbered = record {
  map = (refl, tt);
  named_by = λ id b e. ground (arith, bytes_eq_iff (codes "s-1") id);
  serials = λ id b e. ground (arith, bytes_eq_iff (codes "s-1") id);
}

-- The laptop withdraws and publishes again, and a stream to the old binding is refused.
attach-withdrawn_example :
    (begin_open binding (run calls (unpublish laptop serving).0).0
      ≡ ((run calls (unpublish laptop serving).0).0, changed))
    × (attach binding 7 (run calls (unpublish laptop serving).0).0
        ≡ ((run calls (unpublish laptop serving).0).0, false))
unfolding lookup
attach-withdrawn_example =
    attach-withdrawn serving (codes "s-1") binding calls 7 serving-IsNumbered refl
