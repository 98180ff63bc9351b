-- ===== src/Latest/Tests.antt =====
-- A probe that pushes, is deleted and pushes again.
use cqu_netprobe_gateway.Prelude.{List, [], ◌∷◌, ◌≡◌}
use cqu_netprobe_gateway.Latest.{new, get}
use cqu_netprobe_gateway.Latest.Traces.{
  Write, put_at, delete_of, apply_all, last_about, get-apply_all,
}

abbrev writes : List Write
writes = put_at "p" [] 5 ∷ put_at "q" [] 6 ∷ delete_of "p" ∷ put_at "p" [] 9 ∷ []

get-apply_all_example : get (apply_all new writes) "p" ≡ last_about "p" writes (get new "p")
get-apply_all_example = get-apply_all "p" writes new
