-- ===== src/Swarm/Listed.antt =====
-- The agent that a strategy of amos-packages/amos-autoresearch/src/swarm/router.rs selects is a
-- member of the swarm.
use amos_platform.Prelude.{
  ℕ, ◌%◌, ◌≡◌, refl, subst, arith, Bool, true, ==_refl, Option, none, some, List, [], ◌∷◌, map,
  filter, head?, length, sort_by, is_any, All, All-filter, All-sort_by, All-append, All-map,
  All-mapped, head?-All, get_elem?-All, Bool-cases, inl, inr, unwrap_or, String,
}
use mathlib.Core.Option.{some-injective}
use amos_platform.Prelude.Values.{array}
use amos_platform.Swarm.Types.{SwarmMember, Attribution, Tables}
use amos_platform.Swarm.Router.{
  Chance, members_of, last_uses, least_recent, drawn_member, capable, pick_fit, last_agent,
  select_fit, fitness_pairs, or_null, attributed, for_member, first_use, agent_of, nulls_first,
  has_capabilities, caps_items,
}

-- Some member of the swarm is this agent.
abbrev pub Listed : {F : Type 0} → Tables F → ℕ → ℕ → Type 0
Listed t swarm_id agent_id = is_any (map (λ m. m.agent_id) (members_of swarm_id t)) agent_id ≡ true

module _ {F : Type 0} where
  any_later :
      (rows : List (SwarmMember F)) (x : SwarmMember F) (k : ℕ)
      → is_any (map (λ m. m.agent_id) rows) k ≡ true
      → is_any (map (λ m. m.agent_id) (x ∷ rows)) k ≡ true
  any_later rows x k h = ground arith

  own_ids :
      (rows : List (SwarmMember F))
      → All (λ m. is_any (map (λ x. x.agent_id) rows) m.agent_id ≡ true) rows
  own_ids [] = tt
  own_ids (x ∷ rows) =
      (rw (==_refl x.agent_id) refl, All-map (λ m. any_later rows x m.agent_id) rows (own_ids rows))

  members-Listed :
      (swarm_id : ℕ) (t : Tables F)
      → All (λ m. Listed t swarm_id m.agent_id) (members_of swarm_id t)
  members-Listed swarm_id t = own_ids (members_of swarm_id t)

module _ {F : Type 0} (chance : Chance F) (Q : ℕ → Type 0) where
  agent_of-All :
      (o : Option (SwarmMember F)) (agent_id : ℕ)
      → ((m : SwarmMember F) → o ≡ some m → Q m.agent_id)
      → agent_of o ≡ some agent_id
      → Q agent_id
  agent_of-All none agent_id h e = cc
  agent_of-All (some m) agent_id h e = subst Q (some-injective m.agent_id agent_id e) (h m refl)

  pick_fit-All :
      (pairs : List (ℕ × F)) (pick : F) (agent_id : ℕ)
      → All (λ p. Q p.0) pairs
      → pick_fit chance pairs pick ≡ some agent_id
      → Q agent_id
  pick_fit-All [] pick agent_id h e = cc
  pick_fit-All ((a, f) ∷ pairs) pick agent_id h e =
      elim (Bool-cases (chance.is_spent (chance.minus pick f))) [
        | inl t ↦ subst Q (some-injective a agent_id (rw t at e)) h.0
        | inr t ↦ pick_fit-All pairs (chance.minus pick f) agent_id h.1 (rw t at e)
      ]

  last_agent-All :
      (agent_id : ℕ) (pairs : List (ℕ × F))
      → Q agent_id
      → All (λ p. Q p.0) pairs
      → Q (last_agent agent_id pairs)
  last_agent-All agent_id [] h k = h
  last_agent-All agent_id ((next, f) ∷ pairs) h k = last_agent-All next pairs k.0 k.1

  unwrapped : (o : Option ℕ) (d : ℕ) → ((a : ℕ) → o ≡ some a → Q a) → Q d → Q (unwrap_or o d)
  unwrapped none d h k = k
  unwrapped (some a) d h k = h a refl

  select_fit-All :
      (pairs : List (ℕ × F)) (pick : F) (agent_id : ℕ)
      → All (λ p. Q p.0) pairs
      → select_fit chance pairs pick ≡ some agent_id
      → Q agent_id
  select_fit-All [] pick agent_id h e = cc
  select_fit-All ((a, f) ∷ pairs) pick agent_id h e = subst Q (some-injective _ agent_id e) (
      unwrapped (pick_fit chance ((a, f) ∷ pairs) pick) (last_agent a pairs)
        (λ b g. pick_fit-All ((a, f) ∷ pairs) pick b h g) (last_agent-All a pairs h.0 h.1))

  attributed-All :
      (agent_id : ℕ) (rows : List Attribution)
      → Q agent_id
      → All (λ p. Q p.0) (attributed agent_id rows)
  attributed-All agent_id [] h = tt
  attributed-All agent_id (r ∷ rows) h = (h, attributed-All agent_id rows h)

  or_null-All :
      (agent_id : ℕ) (rows : List Attribution)
      → Q agent_id
      → All (λ p. Q p.0) (or_null agent_id (attributed agent_id rows))
  or_null-All agent_id [] h = (h, tt)
  or_null-All agent_id (r ∷ rows) h = (h, attributed-All agent_id rows h)

  last_uses-All :
      (swarm_id : ℕ) (members : List (SwarmMember F)) (attributions : List Attribution)
      → All (λ m. Q m.agent_id) members
      → All (λ p. Q p.0) (last_uses swarm_id members attributions)
  last_uses-All swarm_id [] attributions h = tt
  last_uses-All swarm_id (m ∷ members) attributions h =
      All-append (λ p. Q p.0)
        (or_null m.agent_id
          (attributed m.agent_id (filter (for_member swarm_id m.agent_id) attributions)))
        (last_uses swarm_id members attributions)
        (or_null-All m.agent_id (filter (for_member swarm_id m.agent_id) attributions) h.0)
        (last_uses-All swarm_id members attributions h.1)

  first_use-All :
      (rows : List (ℕ × Option ℕ)) (agent_id : ℕ)
      → All (λ p. Q p.0) rows
      → first_use (head? rows) ≡ some agent_id
      → Q agent_id
  first_use-All [] agent_id h e = cc
  first_use-All ((a, t) ∷ rows) agent_id h e = subst Q (some-injective a agent_id e) h.0

module _ {F : Type 0} (chance : Chance F) (swarm_id : ℕ) (t : Tables F) (agent_id : ℕ) where
  pub least_recent-Listed : least_recent swarm_id t ≡ some agent_id → Listed t swarm_id agent_id
  least_recent-Listed h =
      let uses = last_uses swarm_id (members_of swarm_id t) t.attributions in
      let Q : ℕ → Type 0 = Listed t swarm_id in
      first_use-All chance Q (sort_by nulls_first uses) agent_id
        (All-sort_by (λ p. Q p.0) nulls_first uses
          (last_uses-All chance Q swarm_id (members_of swarm_id t) t.attributions
            (members-Listed swarm_id t)))
        h

  pub drawn_member-Listed :
      (n : ℕ)
      → agent_of (drawn_member chance n swarm_id t) ≡ some agent_id
      → Listed t swarm_id agent_id
  drawn_member-Listed n h =
      let rows = members_of swarm_id t in
      let Q : ℕ → Type 0 = Listed t swarm_id in
      agent_of-All chance Q (drawn_member chance n swarm_id t) agent_id
        (λ m e.
          get_elem?-All (λ x. Q x.agent_id) rows (chance.place n (length rows) % length rows) m
            (members-Listed swarm_id t) e)
        h

  pub capable-Listed :
      (caps : List String)
      → capable chance caps swarm_id t ≡ some agent_id
      → Listed t swarm_id agent_id
  capable-Listed caps h =
      let Q : ℕ → Type 0 = Listed t swarm_id in
      let able : SwarmMember F → Bool =
        λ m. has_capabilities chance.same_number (array (caps_items caps)) m.agent_id t.agents in
      let before : SwarmMember F → SwarmMember F → Bool = λ a b. chance.heavier a.weight b.weight in
      let rows = filter able (members_of swarm_id t) in
      agent_of-All chance Q (head? (sort_by before rows)) agent_id
        (λ m e.
          head?-All (λ x. Q x.agent_id) (sort_by before rows) m
            (All-sort_by (λ x. Q x.agent_id) before rows
              (All-filter (λ x. Q x.agent_id) able (members_of swarm_id t)
                (members-Listed swarm_id t)))
            e)
        h

  pub select_fit-Listed :
      (pick : F)
      → select_fit chance (fitness_pairs chance (members_of swarm_id t)) pick ≡ some agent_id
      → Listed t swarm_id agent_id
  select_fit-Listed pick h =
      let Q : ℕ → Type 0 = Listed t swarm_id in
      select_fit-All chance Q (fitness_pairs chance (members_of swarm_id t)) pick agent_id
        (All-mapped (λ p. Q p.0)
          (λ m. (m.agent_id, chance.clamped (unwrap_or m.fitness_score chance.one)))
          (members_of swarm_id t) (members-Listed swarm_id t))
        h
