-- ===== src/Matchmaker/Selection/Examples.antt =====
-- matchmaker/service.go: a choice between two nodes.
use pmi.Base.{
  text_append, ℕ, ◌+◌, ◌*◌, ◌/◌, String, ◌≡◌, refl, inl, inr, true, false, Option, none, some, List,
  [], ◌∷◌, arith, ltb, text_discrete, All, StringMap, empty, insert,
}
use mathlib.Core.List.{Memᴰ}
use mathlib.Core.List.Memᴰ
use text.Mathlib.TextEquality.{eq_iff}
use pmi.Base.Result.{ok}
use pmi.Base.Redis
use pmi.Base.Redis.{Outbox, send}
use pmi.Matchmaker.Breaker.{Breakers, new_breakers}
use pmi.Matchmaker.Selection.{
  Floats, NodeMeta, Node, Reads, weight, best, select_by_load, choose, select_node,
}
use pmi.Matchmaker.Selection.Sound.{Serves, Listed, select_node_sound}
use pmi.Matchmaker.Selection.Best.{IsTotal, select_by_load_best}

-- Natural numbers in the place of floats, with 0 for the negative ones.
abbrev naturals : Floats
naturals = record {
  Float = ℕ;
  literal = λ n. n;
  neg = λ x. 0;
  add = ◌+◌;
  mul = ◌*◌;
  div = λ x y. x / y;
  exp = λ x. 1;
  hours = λ t. t;
  gt = λ x y. ltb y x;
}

naturals-IsTotal : IsTotal naturals.gt
naturals-IsTotal = record { asym = λ a b h. ground arith; trans = λ a b c h g. ground arith }

abbrev reputation : StringMap ℕ
reputation = insert "n" 300 (insert "m" 500 empty)

abbrev seen : NodeMeta
seen = record { isp = "isp"; os = "linux"; last_seen = 7 }

abbrev reads : Reads naturals
reads = record {
  nodes_by_city = λ country city. ok [];
  top_nodes = λ country. ok ("n" ∷ "m" ∷ []);
  is_in_cooldown = λ target id. some false;
  node_meta = λ id. ok seen;
  load = λ id. 0;
  reputation = λ id. elim (reputation id) [ none ↦ 0 | some r ↦ r ];
  node_last_seen = λ id. none;
  health_score = λ id. some 100;
}

abbrev no_draw : ℕ → Option ℕ
no_draw n = none

named : ¬ Memᴰ {A = String} "" ("n" ∷ "m" ∷ [])
named h = elim (Memᴰ.cases_cons h) [
  | inl e ↦ ground (arith, eq_iff "" "n")
  | inr t ↦ elim (Memᴰ.cases_cons t) [ inl e ↦ ground (arith, eq_iff "" "m") | inr u ↦ elim u [ ] ]
]

select_by_load_best_example :
    (id : String) × (select_by_load naturals no_draw reads 9 ("n" ∷ "m" ∷ []) ≡ ok id)
    × All
        (λ x. naturals.gt (weight naturals reads 9 x) (weight naturals reads 9 id) ≡ false)
        ("n" ∷ "m" ∷ [])
unfolding weight text_discrete pmi.Matchmaker.Selection.decayed
    pmi.Matchmaker.Selection.health_factor
select_by_load_best_example =
    select_by_load_best naturals naturals-IsTotal no_draw reads 9 "n" ("m" ∷ []) refl named

abbrev node : Node
node = record { id = "m"; country = "US"; city = ""; isp = "isp"; os = "linux"; last_seen = 7 }

abbrev idle : Outbox
idle = record { connected = true; sent = [] }

selected :
    (select_node naturals no_draw reads (new_breakers 3) 9 "US" "" "example.org" idle).1 ≡ ok node
unfolding select_node choose text_discrete pmi.Matchmaker.Selection.city_candidates
    pmi.Matchmaker.Selection.country_candidates pmi.Matchmaker.Selection.some_nodes
    pmi.Matchmaker.Selection.filter_eligible_nodes pmi.Matchmaker.Selection.may_serve
    pmi.Matchmaker.Breaker.is_node_healthy new_breakers select_by_load best weight
    pmi.Matchmaker.Selection.decayed pmi.Matchmaker.Selection.health_factor
    pmi.Matchmaker.Selection.describe
selected = refl

select_node_sound_example :
    ((ids : List String) × Listed naturals reads "US" "" ids
      × Serves naturals reads (new_breakers 3) "example.org" "m" ids)
    × ((select_node naturals no_draw reads (new_breakers 3) 9 "US" "" "example.org" idle).0
        ≡ send (Redis.incr (text_append "node_load:" "m") ∷ []) idle)
select_node_sound_example =
    select_node_sound naturals no_draw reads (new_breakers 3) 9 "US" "" "example.org" idle node
      selected
