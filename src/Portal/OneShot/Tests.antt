-- ===== src/Portal/OneShot/Tests.antt =====
-- A token that is shown, asked for again, and led back from.
use cqu_netprobe_gateway.Prelude.{none, some, List, [], ◌∷◌, ◌≡◌, refl, arith, if◌then◌else◌}
use cqu_netprobe_gateway.Prelude.Text.{text_ne}
use cqu_netprobe_gateway.Prelude.Time.{after}
use cqu_netprobe_gateway.Portal.OneShot.{OneShotStore, safe_back_path, put_pair, take_pair}
use cqu_netprobe_gateway.Portal.OneShot.Once.{
  Call, put_call, take_call, run, take_pair_once, take_pair-put_pair,
}

abbrev minted : OneShotStore
minted = record {
  slots = ("s1", record { probe_id = "p"; value = "token"; back = "/"; expires = 70 }) ∷ [];
  ttl = 60;
}

abbrev calls : List Call
calls = put_call (some "s2") "q" "other" "/" 30 ∷ take_call "s1" 31 ∷ []

take_pair_once_example : (take_pair (run (take_pair minted "s1" 20).0 calls) "s1" 40).1 ≡ none
take_pair_once_example =
    take_pair_once minted "s1" 20 40 calls (tt, tt) (text_ne "s2" "s1" refl, (tt, tt))

-- Another token is stored and redeemed before this one is asked for.
abbrev passing : List Call
passing = put_call (some "s4") "q" "other" "/" 40 ∷ take_call "s4" 60 ∷ take_call "s1" 65 ∷ []

take_pair-put_pair_example :
    (take_pair
      (run (put_pair minted (some "s3") "p" "token" "//evil.example" 10).0 passing)
      "s3"
      70).1
    ≡ (if after 70 70
        then none
        else some (record {
          probe_id = "p";
          value = "token";
          back = safe_back_path "//evil.example";
          expires = 70;
        }))
take_pair-put_pair_example =
    take_pair-put_pair minted "s3" "p" "token" "//evil.example" 10 70 passing (tt, tt)
      (
        (text_ne "s4" "s3" refl, omega arith),
        (text_ne "s4" "s3" refl, (text_ne "s1" "s3" refl, tt)),
      )
