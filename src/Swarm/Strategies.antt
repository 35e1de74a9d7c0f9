-- ===== src/Swarm/Strategies.antt =====
-- The strategies of amos-packages/amos-autoresearch/src/swarm/router.rs only read, and each selects a
-- member of its swarm.
use amos_platform.Prelude.{
  ℕ, ◌+◌, ◌≡◌, refl, ap, sym, ◌∙◌, subst, arith, Bool, true, false, Option, none, some, List, [],
  ◌∷◌, String,
}
use mathlib.Core.Option.{some-injective}
use amos_platform.Error.{AmosError, ok, ok-injective}
use amos_platform.Database.{
  Session, Action, pure, or_raise, ◌>>=◌, fetch, bind_answers, bind_keeps, fetch_reads,
}
use amos_platform.Swarm.Types.{SwarmMember, Tables}
use amos_platform.Swarm.Router.{
  Chance, draw, agent_of, drawn_member, members_of, no_members, least_recent, capable, select_fit,
  fitness_pairs, total_from, random_member, route_round_robin, route_by_capability, route_by_load,
  route_by_fitness, or_random, enabled_or, found,
}
use amos_platform.Swarm.Listed.{
  Listed, drawn_member-Listed, least_recent-Listed, capable-Listed, select_fit-Listed,
}

module _ {F : Type 0} (chance : Chance F) where
  -- An action that leaves the tables as they are.
  abbrev pub Reads : {A : Type 0} → Action (Tables F) A → Type 0
  Reads m = (s : Session (Tables F)) → (m s).1.tables ≡ s.tables

  pub bind-Reads :
      {A B : Type 0} (m : Action (Tables F) A) (k : A → Action (Tables F) B)
      → Reads m
      → ((a : A) → Reads (k a))
      → Reads (m >>= k)
  bind-Reads m k h g s = bind_keeps (λ s'. s'.tables ≡ s.tables) m k s (h s) (λ a s' e. g a s' ∙ e)

  random-Reads : (swarm_id : ℕ) → Reads (random_member chance swarm_id)
  unfolding random_member
  random-Reads swarm_id s = ground arith

  pub fitness-Reads : (swarm_id : ℕ) → Reads (route_by_fitness chance swarm_id)
  unfolding route_by_fitness
  fitness-Reads swarm_id s = ground arith

  pub or_random-Reads : (swarm_id : ℕ) (o : Option ℕ) → Reads (or_random chance swarm_id o)
  or_random-Reads swarm_id none s = random-Reads swarm_id s
  or_random-Reads swarm_id (some a) s = refl

  pub fetch-Reads : {A : Type 0} (what : String) (read : Tables F → A) → Reads (fetch what read)
  fetch-Reads what read s = ground arith

  pub found-Reads : (m : Action (Tables F) ℕ) → Reads m → Reads (found chance m)
  found-Reads m h = bind-Reads m (λ a. pure (some a)) h (λ a s. refl)

  pub raise-Reads : {A : Type 0} (o : Option A) (e : AmosError) → Reads (or_raise o e)
  raise-Reads none e s = refl
  raise-Reads (some a) e s = refl

  pub enabled-Reads : (b : Bool) (e : AmosError) → Reads (enabled_or chance b e)
  enabled-Reads true e s = refl
  enabled-Reads false e s = refl

  pub capability-Reads :
      (id : ℕ) (caps : Option (List String)) → Reads (route_by_capability chance id caps)
  unfolding route_by_capability
  capability-Reads id none = random-Reads id
  capability-Reads id (some []) = random-Reads id
  capability-Reads id (some (c ∷ caps)) =
      bind-Reads _ (or_random chance id) (fetch-Reads "Capability routing query failed: " _)
        (or_random-Reads id)

  -- An answered action that is wrapped was answered.
  pub found_answers :
      (m : Action (Tables F) ℕ) (s : Session (Tables F)) (a : ℕ)
      → (found chance m s).0 ≡ ok (some a)
      → (m s).0 ≡ ok a
  found_answers m s a h =
      let (b, got, same) = bind_answers m (λ x. pure (some x)) s (some a) h in
      let is_a : b ≡ a =
        some-injective b a (ok-injective (some b) (some a) (ap (λ p. p.0) (sym same) ∙ h)) in
      got ∙ ap ok is_a

  raise_answers :
      (o : Option ℕ) (e : AmosError) (s : Session (Tables F)) (a : ℕ)
      → (or_raise o e s).0 ≡ ok a
      → o ≡ some a
  raise_answers none e s a h = cc
  raise_answers (some b) e s a h = ap some (ok-injective b a h)

  random-Listed :
      (id a : ℕ) (s : Session (Tables F))
      → (random_member chance id s).0 ≡ ok a
      → Listed s.tables id a
  unfolding random_member
  random-Listed id a s h =
      let read : Tables F → Option ℕ = λ t. agent_of (drawn_member chance s.drawn id t) in
      let what : String = "Random member query failed: " in
      let s1 : Session (Tables F) = record s { drawn = s.drawn + 1 } in
      let (o, got, same) =
        bind_answers (fetch what read) (λ o. or_raise o (no_members id)) s1 a h in
      drawn_member-Listed chance id s.tables a s.drawn (
        (fetch_reads what read s1 o got).0
        ∙ raise_answers o (no_members id) (fetch what read s1).1 a (ap (λ p. p.0) (sym same) ∙ h))

  or_random-Listed :
      (id a : ℕ) (o : Option ℕ) (s : Session (Tables F))
      → (o ≡ some a → Listed s.tables id a)
      → (or_random chance id o s).0 ≡ ok a
      → Listed s.tables id a
  or_random-Listed id a none s h k = random-Listed id a s k
  or_random-Listed id a (some b) s h k = h (ap some (ok-injective b a k))

  query-Listed :
      (what : String) (read : Tables F → Option ℕ) (id a : ℕ) (s : Session (Tables F))
      → ((t : Tables F) → read t ≡ some a → Listed t id a)
      → ((fetch what read >>= or_random chance id) s).0 ≡ ok a
      → Listed s.tables id a
  query-Listed what read id a s h k =
      let (o, got, same) = bind_answers (fetch what read) (or_random chance id) s a k in
      let (is_read, still) = fetch_reads what read s o got in
      subst (λ t. Listed t id a) still
        (or_random-Listed id a o (fetch what read s).1
          (λ e. h (fetch what read s).1.tables (ap read still ∙ is_read ∙ e))
          (ap (λ p. p.0) (sym same) ∙ k))

  pub fitness-Listed :
      (id a : ℕ) (s : Session (Tables F))
      → (route_by_fitness chance id s).0 ≡ ok a
      → Listed s.tables id a
  unfolding route_by_fitness
  fitness-Listed id a s h =
      let what : String = "Fitness routing query failed: " in
      let select : ℕ → List (SwarmMember F) → Option ℕ = λ n rows.
        select_fit chance (fitness_pairs chance rows)
          (chance.gen_range n (total_from chance chance.zero_f (fitness_pairs chance rows))) in
      let (rows, got, same) =
        bind_answers (fetch what (members_of id))
          (λ rows. draw >>= λ n. or_raise (select n rows) (no_members id)) s a h in
      let s1 : Session (Tables F) = (fetch what (members_of id) s).1 in
      let is_rows = (fetch_reads what (members_of id) s rows got).0 in
      let selected : select s1.drawn rows ≡ some a =
        raise_answers (select s1.drawn rows) (no_members id) (record s1 { drawn = s1.drawn + 1 }) a
          (ap (λ p. p.0) (sym same) ∙ h) in
      select_fit-Listed chance id s.tables a
        (chance.gen_range s1.drawn
          (total_from chance chance.zero_f (fitness_pairs chance (members_of id s.tables))))
        (ap (select s1.drawn) is_rows ∙ selected)

  pub capability-Listed :
      (id a : ℕ) (caps : Option (List String)) (s : Session (Tables F))
      → (route_by_capability chance id caps s).0 ≡ ok a
      → Listed s.tables id a
  unfolding route_by_capability
  capability-Listed id a none s h = random-Listed id a s h
  capability-Listed id a (some []) s h = random-Listed id a s h
  capability-Listed id a (some (c ∷ caps)) s h =
      query-Listed "Capability routing query failed: " (capable chance (c ∷ caps) id) id a s
        (λ t e. capable-Listed chance id t a (c ∷ caps) e) h

  pub round_robin-Listed :
      (id a : ℕ) (s : Session (Tables F))
      → (route_round_robin chance id s).0 ≡ ok a
      → Listed s.tables id a
  unfolding route_round_robin
  round_robin-Listed id a s h =
      query-Listed "Round-robin query failed: " (least_recent id) id a s
        (λ t e. least_recent-Listed chance id t a e) h

  pub load_fails : (id a : ℕ) (s : Session (Tables F)) → (route_by_load chance id s).0 ≡ ok a → ⊥
  unfolding route_by_load
  load_fails id a s h = cc
