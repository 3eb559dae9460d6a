-- ===== src/Matchmaker/Selection/Sound.antt =====
-- matchmaker/service.go, `SelectNode`: the node that is returned may serve the request.
use mathlib.Core.List.{Memᴰ}
use mathlib.Core.List.Memᴰ
use pmi.Base.{
  text_append, ℕ, zero, suc, String, ◌≡◌, refl, subst, ◌≢◌, ◌⊎◌, inl, inr, true, false, Option,
  some, List, [], ◌∷◌, arith, Bool-cases, Option-cases, text_discrete, length, get_elem?,
}
use pmi.Base.Result.{Result, ok, err, sequenced}
use pmi.Base.Redis
use pmi.Base.Redis.{Outbox, send}
use pmi.Matchmaker.Breaker.{Breakers, is_node_healthy}
use pmi.Matchmaker.Selection.{
  Floats, Reads, Node, NodeMeta, weight, best, random_select, select_by_load, may_serve,
  filter_eligible_nodes, city_candidates, country_candidates, some_nodes, choose, describe,
  select_node,
}

get_elem?-Mem {ℓ} : {A : Type ℓ} (l : List A) (i : ℕ) {a : A} → get_elem? l i ≡ some a → Memᴰ a l
get_elem?-Mem [] i h = absurd (cc)
get_elem?-Mem (x ∷ xs) zero h = Memᴰ.head (ground arith)
get_elem?-Mem (x ∷ xs) (suc i) h = Memᴰ.tail (get_elem?-Mem xs i h)

module _ (floats : Floats) where
  open floats use {Float, gt}

  pub best-Mem :
      (weigh : String → Float) (ids : List String) (w : Float) (selected : String)
      → (best floats weigh ids w selected ≡ selected) ⊎ Memᴰ (best floats weigh ids w selected) ids
  unfolding best
  best-Mem weigh [] w selected = inl refl
  best-Mem weigh (id ∷ ids) w selected = elim (Bool-cases (gt (weigh id) w)) [
    | inl e ↦ rw e (elim (best-Mem weigh ids (weigh id) id) [
      | inl h ↦ inr (Memᴰ.head h)
      | inr h ↦ inr (Memᴰ.tail h)
    ])
    | inr e ↦
        rw e (elim (best-Mem weigh ids w selected) [ inl h ↦ inl h | inr h ↦ inr (Memᴰ.tail h) ])
  ]

  may_serve_lem :
      (reads : Reads floats) (m : Breakers) (target id : String)
      → may_serve floats reads m target id ≡ true
      → (is_node_healthy id m ≡ true) × (reads.is_in_cooldown target id ≡ some false)
  unfolding may_serve
  may_serve_lem reads m target id h = ground arith

  -- What is known of a node that passed the filter.
  abbrev pub Serves : Reads floats → Breakers → String → String → List String → Type 0
  Serves reads m target id ids =
      Memᴰ id ids × (is_node_healthy id m ≡ true) × (reads.is_in_cooldown target id ≡ some false)

  eligible-Mem :
      (reads : Reads floats) (m : Breakers) (target id : String) (ids : List String)
      → Memᴰ id (filter_eligible_nodes floats reads m target ids)
      → Serves reads m target id ids
  unfolding filter_eligible_nodes
  eligible-Mem reads m target id [] h = elim h [ ]
  eligible-Mem reads m target id (x ∷ ids) h =
      let ih = eligible-Mem reads m target id ids in
      elim (Bool-cases (may_serve floats reads m target x)) [
        | inl e ↦ elim (Memᴰ.cases_cons (rw e at h)) [
          | inl p ↦
              let facts = may_serve_lem reads m target x e in
              (Memᴰ.head p, rw p facts.0, rw p facts.1)
          | inr t ↦ let (mem, healthy, warm) = ih t in (Memᴰ.tail mem, healthy, warm)
        ]
        | inr e ↦ let (mem, healthy, warm) = ih (rw e at h) in (Memᴰ.tail mem, healthy, warm)
      ]

  random-Mem :
      (pick : ℕ → Option ℕ) (ids : List String) (id : String)
      → random_select floats pick ids ≡ ok id
      → Memᴰ id ids
  unfolding random_select
  random-Mem pick [] id h = absurd (cc)
  random-Mem pick (x ∷ xs) id h = elim (Option-cases (pick (length (x ∷ xs)))) [
    | inl e ↦ absurd (ground arith)
    | inr (i, e) ↦ elim (Option-cases (get_elem? (x ∷ xs) i)) [
      | inl g ↦ absurd (ground arith)
      | inr (y, g) ↦
          let same : y ≡ id = ground arith in
          subst (λ z. Memᴰ z (x ∷ xs)) same (get_elem?-Mem (x ∷ xs) i g)
    ]
  ]

  load-Mem :
      (pick : ℕ → Option ℕ) (reads : Reads floats) (now : ℕ) (ids : List String) (id : String)
      → select_by_load floats pick reads now ids ≡ ok id
      → Memᴰ id ids
  unfolding select_by_load
  load-Mem pick reads now ids id h =
      let weigh = weight floats reads now in
      let start = floats.neg (floats.literal 1) in
      let found = best floats weigh ids start "" in
      elim (text_discrete found "") [
        | yes p ↦ random-Mem pick ids id (ground arith)
        | no p ↦
            let same : found ≡ id = ground arith in
            elim (best-Mem weigh ids start "") [
              | inl q ↦ absurd (p q)
              | inr q ↦ subst (λ z. Memᴰ z ids) same q
            ]
      ]

  some_nodes_lem :
      (message : String) (l : List String) {l' : List String}
      → some_nodes floats message l ≡ ok l'
      → l ≡ l'
  unfolding some_nodes
  some_nodes_lem message [] h = absurd (cc)
  some_nodes_lem message (x ∷ xs) h = ground arith

  -- Where candidates come from.
  abbrev pub Listed : Reads floats → String → String → List String → Type 0
  Listed reads country city ids =
      (reads.nodes_by_city country city ≡ ok ids) ⊎ (reads.top_nodes country ≡ ok ids)

  country-Listed :
      (reads : Reads floats) (country : String) (l : List String) {ids : List String}
      → country_candidates floats reads country l ≡ ok ids
      → ((l ≡ ids) × (l ≢ [])) ⊎ (reads.top_nodes country ≡ ok ids)
  unfolding country_candidates
  country-Listed reads country [] h = ground arith
  country-Listed reads country (x ∷ xs) h = inl (ground arith, λ e. cc)

  listed :
      (reads : Reads floats) (country city : String) (in_city : List String) {ids : List String}
      → city_candidates floats reads country city ≡ ok in_city
      → ((in_city ≡ ids) × (in_city ≢ [])) ⊎ (reads.top_nodes country ≡ ok ids)
      → Listed reads country city ids
  unfolding city_candidates
  listed reads country city in_city e (inr top) = inr top
  listed reads country city in_city e (inl (same, filled)) = elim (text_discrete city "") [
    | yes p ↦ absurd (filled (ground arith))
    | no p ↦ inl (ground arith)
  ]

  choose-Serves :
      (pick : ℕ → Option ℕ) (reads : Reads floats) (m : Breakers) (now : ℕ)
      (country city target id : String)
      → choose floats pick reads m now country city target ≡ ok id
      → (ids : List String) × Listed reads country city ids × Serves reads m target id ids
  unfolding choose
  choose-Serves pick reads m now country city target id h =
      let (in_city, e₁, h₁) = sequenced _ (city_candidates floats reads country city) h in
      let (found, e₂, h₂) = sequenced _ (country_candidates floats reads country in_city) h₁ in
      let (candidates, e₃, h₃) = sequenced _ (some_nodes floats _ found) h₂ in
      let (eligible, e₄, h₄) =
        sequenced _ (some_nodes floats _ (filter_eligible_nodes floats reads m target candidates))
          h₃ in
      let kept =
        eligible-Mem reads m target id candidates
          (rw (some_nodes_lem _ _ e₄) (load-Mem pick reads now eligible id h₄)) in
      let same : found ≡ candidates = some_nodes_lem _ _ e₃ in
      (
        candidates,
        rw same at (listed reads country city in_city e₁ (country-Listed reads country in_city e₂)),
        kept,
      )

  describe-id :
      (id country city : String) (meta : Result NodeMeta) {node : Node}
      → describe floats id country city meta ≡ ok node
      → id ≡ node.id
  unfolding describe
  describe-id id country city (err e) h = absurd (cc)
  describe-id id country city (ok meta) h = ground arith

  -- If `SelectNode` returns a node, its id is among the nodes listed for the city or for the
  -- country, its circuit breaker is closed, it is not in cooldown for the target domain, and its
  -- load has been raised by one.
  pub select_node_sound :
      (pick : ℕ → Option ℕ) (reads : Reads floats) (m : Breakers) (now : ℕ)
      (country city target : String) (redis : Outbox) (node : Node)
      → (select_node floats pick reads m now country city target redis).1 ≡ ok node
      → ((ids : List String) × Listed reads country city ids × Serves reads m target node.id ids)
        × ((select_node floats pick reads m now country city target redis).0
            ≡ send (Redis.incr (text_append "node_load:" node.id) ∷ []) redis)
  unfolding select_node describe
  select_node_sound pick reads m now country city target redis node h =
      chosen (choose floats pick reads m now country city target) refl h
    where
      chosen :
          (c : Result String)
          → choose floats pick reads m now country city target ≡ c
          → (elim c as (λ x. Outbox × Result Node) [
            | err e ↦ (redis, err e)
            | ok id ↦ (
              send (Redis.incr (text_append "node_load:" id) ∷ []) redis,
              describe floats id country city (reads.node_meta id),
            )
          ]).1
            ≡ ok node
          → ((ids : List String) × Listed reads country city ids
              × Serves reads m target node.id ids)
            × ((select_node floats pick reads m now country city target redis).0
                ≡ send (Redis.incr (text_append "node_load:" node.id) ∷ []) redis)
      chosen (err e) c g = absurd (cc)
      chosen (ok id) c g =
          let same : id ≡ node.id = describe-id id country city (reads.node_meta id) g in
          (
            subst
                (λ z.
                  (ids : List String) × Listed reads country city ids × Serves reads m target z ids)
                same (choose-Serves pick reads m now country city target id c),
            rw (c, select_node) (rw same),
          )
