-- ===== src/DagBuilder/Search.antt =====
-- What a search that finds no cycle has settled.
use distributed_task_system.Common.{
  ℕ, zero, suc, >>=-eq-some, eq_of_some-eq-some, String, ◌≡◌, refl, sym, ap, subst, ◌∙◌, inl, inr,
  Bool, true, false, Option, some, List, [], ◌∷◌, arith, eq_iff, eq_refl, ltb, ◌==◌, if◌then◌else◌,
  Bool-cases, mem, Dict, put,
}
use distributed_task_system.DagBuilder.{
  colour-put, children_in, colour, scan, finish, has_cycle_dfs, search_all,
}

module _ (adj : Dict (List String)) where
  -- Names in the order in which they were finished, the last first: the children of each come behind it.
  unfoldable pub IsFinished : List String → Type 0
  IsFinished [] = Unit
  IsFinished (u ∷ l) =
      (mem u l ≡ false)
      × ((v : String) → mem v (children_in adj u) ≡ true → mem v l ≡ true)
      × IsFinished l

  -- The black names are those that have been finished.
  pub record IsSettled (visited : Dict ℕ) (l : List String) : Type 0 where
    pub order : IsFinished l
    pub black : (x : String) → ltb 1 (colour visited x) ≡ mem x l

  -- What a part of the search may change: grey and black names keep their colour.
  pub record Grown (before after : Dict ℕ) (l : List String) : Type 0 where
    pub list : List String
    pub settled : IsSettled after list
    pub greys : (x : String) → colour before x ≡ 1 → colour after x ≡ 1
    pub no_new : (x : String) → colour after x ≡ 1 → colour before x ≡ 1
    pub blacks : (x : String) → mem x l ≡ true → mem x list ≡ true

  abbrev pub Visit : Type 0
  Visit = String → Dict ℕ → Option (Bool × Dict ℕ)

  -- A call that finds no cycle leaves its name black.
  abbrev pub IsSound : Visit → Type 0
  IsSound visit =
      (u : String) (visited after : Dict ℕ) (l : List String)
      → colour visited u ≡ 0
      → IsSettled visited l
      → visit u visited ≡ some (false, after)
      → (g : Grown visited after l) × (mem u g.list ≡ true)

  pub put-grey :
      (u : String) (visited : Dict ℕ) (l : List String)
      → colour visited u ≡ 0
      → IsSettled visited l
      → IsSettled (put u 1 visited) l
  put-grey u visited l white s = record {
    order = s.order;
    black = λ x. ground (arith, colour-put u 1 visited x, s.black x, eq_iff u x, white);
  }

  cover-cons :
      (v : String) (vs l : List String)
      → mem v l ≡ true
      → ((x : String) → mem x vs ≡ true → mem x l ≡ true)
      → (x : String) → mem x (v ∷ vs) ≡ true
      → mem x l ≡ true
  unfolding mem
  cover-cons v vs l h k x e = ground (arith, h, k x, e, eq_iff x v, eq_iff v x)

  unchanged : (visited : Dict ℕ) (l : List String) → IsSettled visited l → Grown visited visited l
  unchanged visited l s = record {
    list = l;
    settled = s;
    greys = λ x h. h;
    no_new = λ x h. h;
    blacks = λ x h. h;
  }

  abbrev grown_then :
      (a b c : Dict ℕ) (l : List String) (g : Grown a b l) → Grown b c g.list → Grown a c l
  grown_then a b c l g h = record {
    list = h.list;
    settled = h.settled;
    greys = λ x e. h.greys x (g.greys x e);
    no_new = λ x e. g.no_new x (h.no_new x e);
    blacks = λ x e. h.blacks x (g.blacks x e);
  }

  first_and_rest :
      (a b c : Dict ℕ) (l : List String) (v : String) (vs : List String) (g : Grown a b l)
      (h : Grown b c g.list)
      → mem v g.list ≡ true
      → ((x : String) → mem x vs ≡ true → mem x h.list ≡ true)
      → (k : Grown a c l) × ((x : String) → mem x (v ∷ vs) ≡ true → mem x k.list ≡ true)
  first_and_rest a b c l v vs g h m k =
      (grown_then a b c l g h, cover-cons v vs h.list (h.blacks v m) k)

  -- Of two results, the one that found nothing.
  pub found_nothing :
      (r : Bool × Dict ℕ) (o : Option (Bool × Dict ℕ)) (after : Dict ℕ)
      → (if r.0 then some (true, r.1) else o) ≡ some (false, after)
      → (r.0 ≡ false) × (o ≡ some (false, after))
  found_nothing (true, w) o after h =
      let e = ap (λ x. x.0) (eq_of_some-eq-some (true, w) (false, after) h) in ground (arith, e)
  found_nothing (false, w) o after h = (refl, h)

  pub scan-IsSound :
      (visit : Visit) (vs : List String) (visited after : Dict ℕ) (l : List String)
      → IsSound visit
      → IsSettled visited l
      → scan visit vs visited ≡ some (false, after)
      → (g : Grown visited after l) × ((v : String) → mem v vs ≡ true → mem v g.list ≡ true)
  unfolding scan
  scan-IsSound visit [] visited after l sound s h =
      let e = ap (λ x. x.1) (eq_of_some-eq-some (false, visited) (false, after) h) in
      (
        subst (λ w. Grown visited w l) e (unchanged visited l s),
        λ v k. unfold mem in ground (arith, k),
      )
  scan-IsSound visit (v ∷ vs) visited after l sound s h =
      elim (Bool-cases (colour visited v == 1)) [
        | inl grey ↦
            (let e =
                ap (λ x. x.0) (eq_of_some-eq-some (true, visited) (false, after) (rw grey at h)) in
              ground (arith, e))
        | inr g ↦ elim (Bool-cases (colour visited v == 0)) [
          | inl white ↦
              (let (r, er, h1) = >>=-eq-some (visit v visited) _ (rw (g, white) at h) in
                let (clear, h2) = found_nothing r (scan visit vs r.1) after h1 in
                let (g1, m1) =
                  sound v visited r.1 l (ground (arith, white)) s
                    (er ∙ ap (λ b. some (b, r.1)) clear) in
                let (g2, m2) = scan-IsSound visit vs r.1 after g1.list sound g1.settled h2 in
                first_and_rest visited r.1 after l v vs g1 g2 m1 m2)
          | inr w ↦
              (let (g2, m2) = scan-IsSound visit vs visited after l sound s (rw (g, w) at h) in
                (g2, cover-cons v vs g2.list (g2.blacks v (ground (arith, s.black v, g, w))) m2))
        ]
      ]

  finish_nothing :
      (u : String) (r : Bool × Dict ℕ) (after : Dict ℕ)
      → finish u r ≡ (false, after)
      → (r.0 ≡ false) × (put u 2 r.1 ≡ after)
  finish_nothing u (true, w) after h = let e = ap (λ x. x.0) h in ground (arith, e)
  finish_nothing u (false, w) after h = (refl, ap (λ x. x.1) h)

  blackened :
      (u : String) (visited w : Dict ℕ) (l : List String)
      → colour visited u ≡ 0
      → (g : Grown (put u 1 visited) w l)
      → ((v : String) → mem v (children_in adj u) ≡ true → mem v g.list ≡ true)
      → (k : Grown visited (put u 2 w) l) × (mem u k.list ≡ true)
  unfolding mem
  blackened u visited w l white g m = (
    record {
      list = u ∷ g.list;
      settled = record {
        order = unfold IsFinished in (sym (g.settled.black u) ∙ still_grey, m, g.settled.order);
        black = λ x. ground (arith, colour-put u 2 w x, g.settled.black x, eq_iff u x, eq_iff x u);
      };
      greys = λ x e.
          ground
            (arith, colour-put u 2 w x, g.greys x, colour-put u 1 visited x, eq_iff u x, white, e);
      no_new = λ x e.
          ground (arith, colour-put u 2 w x, g.no_new x, colour-put u 1 visited x, eq_iff u x, e);
      blacks = λ x e. ground (arith, g.blacks x e);
    },
    ground (arith, eq_refl u),
  )
    where
      still_grey : ltb 1 (colour w u) ≡ false
      still_grey = ground (arith, g.greys u, colour-put u 1 visited u, eq_refl u)

  pub has_cycle_dfs-IsSound : (fuel : ℕ) → IsSound (has_cycle_dfs adj fuel)
  unfolding has_cycle_dfs
  has_cycle_dfs-IsSound zero u visited after l white s h = ground (arith, h)
  has_cycle_dfs-IsSound (suc fuel) u visited after l white s h =
      let (r, er, h1) =
        >>=-eq-some (scan (has_cycle_dfs adj fuel) (children_in adj u) (put u 1 visited)) _ h in
      let (clear, is_after) =
        finish_nothing u r after (eq_of_some-eq-some (finish u r) (false, after) h1) in
      let (g, m) =
        scan-IsSound (has_cycle_dfs adj fuel) (children_in adj u) (put u 1 visited) r.1 l
          (has_cycle_dfs-IsSound fuel) (put-grey u visited l white s)
          (er ∙ ap (λ b. some (b, r.1)) clear) in
      subst (λ w. (k : Grown visited w l) × (mem u k.list ≡ true)) is_after
        (blackened u visited r.1 l white g m)

  -- A whole search that finds nothing has finished every name.
  pub search_all-IsSound :
      (fuel : ℕ) (us : List String) (visited after : Dict ℕ) (l : List String)
      → IsSettled visited l
      → ((u : String) → (colour visited u ≡ 1) → ⊥)
      → search_all adj fuel us visited ≡ some (false, after)
      → (g : Grown visited after l) × ((u : String) → mem u us ≡ true → mem u g.list ≡ true)
  unfolding search_all
  search_all-IsSound fuel [] visited after l s none_grey h =
      let e = ap (λ x. x.1) (eq_of_some-eq-some (false, visited) (false, after) h) in
      (
        subst (λ w. Grown visited w l) e (unchanged visited l s),
        λ v k. unfold mem in ground (arith, k),
      )
  search_all-IsSound fuel (u ∷ us) visited after l s none_grey h =
      elim (Bool-cases (colour visited u == 0)) [
        | inl white ↦
            (let (r, er, h1) = >>=-eq-some (has_cycle_dfs adj fuel u visited) _ (rw white at h) in
              let (clear, h2) = found_nothing r (search_all adj fuel us r.1) after h1 in
              let (g1, m1) =
                has_cycle_dfs-IsSound fuel u visited r.1 l (ground (arith, white)) s
                  (er ∙ ap (λ b. some (b, r.1)) clear) in
              let (g2, m2) =
                search_all-IsSound fuel us r.1 after g1.list g1.settled
                  (λ x e. none_grey x (g1.no_new x e)) h2 in
              first_and_rest visited r.1 after l u us g1 g2 m1 m2)
        | inr w ↦
            (let (g2, m2) = search_all-IsSound fuel us visited after l s none_grey (rw w at h) in
              (
                g2,
                cover-cons u us g2.list (g2.blacks u (sym (s.black u) ∙ dark u w (none_grey u))) m2,
              ))
      ]
    where
      dark :
          (x : String)
          → (colour visited x == 0) ≡ false
          → (colour visited x ≡ 1 → ⊥)
          → ltb 1 (colour visited x) ≡ true
      dark x z k = ground (arith, z, k)
