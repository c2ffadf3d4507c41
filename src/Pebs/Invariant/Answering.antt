-- ===== src/Pebs/Invariant/Answering.antt =====
-- A whole loop of the policy thread over a ring of requests.
use hemem.Prelude.{
  ℕ, zero, suc, ◌+◌, ◌-◌, ◌⊎◌, nil_of_length, ◌+◌, ◌<◌, ◌≤◌, ◌≡◌, refl, sym, ap, ◌∙◌, subst, Bool,
  Bool-cases, inl, inr, true, Option, some, none, List, [], ◌∷◌, Ptr, ltb, ◌==◌, ◌&&◌,
  if◌then◌else◌, arith, length, Returns, returns, bind, mono, eq_of_==,
}
use hemem.Ring
use hemem.Ring.{RingBuf}
use hemem.Ring.Entries.{Holding, empty_lem, get_lem}
use hemem.Memory.Page.{Page}
use hemem.Memory.Kernel.{Env}
use hemem.Memory.State.{State, Pebs}
use hemem.Pebs.Scan.{set_pebs}
use hemem.Pebs.Policy.{requests}
use hemem.Pebs.Invariant.{Inv}
use hemem.Pebs.Invariant.Cursor.{Cursors}
use hemem.Pebs.Invariant.Draining.{holds, ring-Inv}
use hemem.Pebs.Invariant.Serving.{Makes, Servable, Served, serve_lem}
use hemem.Pebs.Invariant.Answered.{IsRing, Answered, Walked-same, Walked-ring}

module _ {e : Env} {n : ℕ} (h : Bool)
    (make : ℕ → State e.table.Table → Option (State e.table.Table)) (makes : Makes e n h make)
    (ring : Pebs → RingBuf) (with_ring : Pebs → RingBuf → Pebs) (is_ring : IsRing ring with_ring)
    (limit : ℕ) where
  requests_nothing :
      (xs : List Ptr) (num : ℕ) (s : State e.table.Table)
      → Inv e n s
      → Cursors s
      → (xs ≡ []) ⊎ (limit ≤ num)
      → Answered ring with_ring h xs (limit - num) s s
  requests_nothing xs num s inv c why = record {
    cursors = c;
    pebs = Walked-same ring with_ring is_ring s.pebs;
    heat = λ q. inl refl;
    still = λ q o. (refl, refl);
    page = λ q. refl;
    answer = λ enough q o. absurd (elim why [
      | inl nil ↦ ground (arith, ap (holds q) nil)
      | inr over ↦ ground (arith, ap (holds q) (nil_of_length xs (omega arith)))
    ]);
  }

  popped-Cursors :
      (r : RingBuf) (s : State e.table.Table)
      → Cursors s
      → Cursors (set_pebs s (with_ring s.pebs r))
  popped-Cursors r s c = record {
    fast = λ q on. c.fast q (sym (is_ring.fast s.pebs r) ∙ on);
    slow = λ q on. c.slow q (sym (is_ring.slow s.pebs r) ∙ on);
  }

  -- One request and then the rest.
  Answered-cons :
      (p : ℕ) (xs : List Ptr) (room room' : ℕ) (s s1 s' : State e.table.Table)
      → suc room' ≡ room ⊎ (room' ≡ room)
      → Served h p s s1
      → Answered ring with_ring h xs room' s1 s'
      → Answered ring with_ring h (some p ∷ xs) room s s'
  Answered-cons p xs room room' s s1 s' less v d = record {
    cursors = d.cursors;
    pebs = Walked-ring ring with_ring is_ring s.pebs s1.pebs s'.pebs v.pebs d.pebs;
    heat = λ q. elim (d.heat q) [
      | inr is ↦ inr is
      | inl old ↦ elim (Bool-cases ((q == p) && (s.page p).present)) [
        | inl now ↦ inr (old ∙ ap (λ (y : Page). y.hot) (v.page q) ∙ rw now refl)
        | inr ne ↦ inl (old ∙ ap (λ (y : Page). y.hot) (v.page q) ∙ rw ne refl)
      ]
    ];
    still = λ q o. ground (arith, d.still q, v.page q, v.place q, eq_of_== q p);
    page = λ q.
        d.page q
        ∙ ap
            (λ (y : Page). record y {
              ring_present = (s'.page q).ring_present;
              hot = (s'.page q).hot;
            })
            (v.page q)
        ∙ elim (Bool-cases ((q == p) && (s.page p).present)) [
          | inl is ↦ rw is refl
          | inr ne ↦ rw ne refl
        ];
    answer = λ enough q o.
        let enough' : length xs ≤ room' = elim less [
          | inl fewer ↦ omega arith
          | inr same ↦ omega arith
        ] in
        ground (arith, d.answer enough' q, d.still q, v.page q, v.place q, eq_of_== q p);
  }

  Servable-next :
      (p q : ℕ) (s s1 : State e.table.Table) (b : Pebs)
      → Servable q s
      → Served h p (set_pebs s b) s1
      → Servable q s1
  Servable-next p q s s1 b a v = record {
    mapped = λ live zip. a.mapped (ground (arith, v.page q)) (ground (arith, v.page q));
    freed = λ gone. ground (arith, a.freed, v.page q, v.place q, eq_of_== q p);
  }

  pub requests_lem :
      (xs : List Ptr) (fuel num : ℕ) (s : State e.table.Table)
      → length xs < fuel
      → Holding xs (ring s.pebs)
      → Inv e n s
      → Cursors s
      → ((p : ℕ) → holds p xs ≡ true → Servable p s)
      → Returns
          (λ s'. Inv e n s' × Answered ring with_ring h xs (limit - num) s s')
          (requests ring with_ring make limit fuel num s)
  unfolding requests
  requests_lem xs zero num s fuel r inv c ask = absurd (omega arith)
  requests_lem [] (suc fuel) num s f r inv c ask =
      rw (empty_lem (ring s.pebs) r, requests)
        (returns (inv, requests_nothing [] num s inv c (inl refl)))
  requests_lem (none ∷ xs) (suc fuel) num s f r inv c ask =
      let (more, is, left) = get_lem none xs (ring s.pebs) r in
      let b = with_ring s.pebs (Ring.get (ring s.pebs)).1 in
      elim (Bool-cases (ltb num limit)) [
        | inr over ↦
            rw (more, over, requests)
              (returns (inv, requests_nothing (none ∷ xs) num s inv c (inr (ground arith))))
        | inl room ↦
            rw (more, room, is, requests)
              (mono
                (requests_lem xs fuel num (set_pebs s b) (omega arith)
                  (rw (is_ring.written s.pebs (Ring.get (ring s.pebs)).1) left) (ring-Inv b s inv)
                  (popped-Cursors _ s c)
                  (λ q m.
                    let a = ask q (ground arith) in record { mapped = a.mapped; freed = a.freed }))
                λ s' (inv', d). (
                  inv',
                  record {
                    cursors = d.cursors;
                    pebs =
                        rw (is_ring.again s.pebs (Ring.get (ring s.pebs)).1 (ring s'.pebs)) at
                          d.pebs;
                    heat = d.heat;
                    still = d.still;
                    page = d.page;
                    answer = λ enough. d.answer (omega arith);
                  },
                ))
      ]
  requests_lem (some p ∷ xs) (suc fuel) num s f r inv c ask =
      let (more, is, left) = get_lem (some p) xs (ring s.pebs) r in
      let b = with_ring s.pebs (Ring.get (ring s.pebs)).1 in
      elim (Bool-cases (ltb num limit)) [
        | inr over ↦
            rw (more, over, requests)
              (returns (inv, requests_nothing (some p ∷ xs) num s inv c (inr (ground arith))))
        | inl room ↦
            rw (more, room, is, requests)
              (bind
                (serve_lem h make makes p (set_pebs s b) (ring-Inv b s inv) (popped-Cursors _ s c)
                  (let a = ask p (ground arith) in record { mapped = a.mapped; freed = a.freed }))
                λ (served, s1) (counts, inv1, v).
                  mono
                    (requests_lem xs fuel (if served then num + 1 else num) s1 (omega arith)
                      (subst (Holding xs)
                        (sym (
                          is_ring.kept b s1.pebs v.pebs
                          ∙ is_ring.written s.pebs (Ring.get (ring s.pebs)).1))
                        left)
                      inv1 v.cursors (λ q m. Servable-next p q s s1 b (ask q (ground arith)) v))
                    λ s' (inv', d).
                      let all =
                        Answered-cons p xs (limit - num) (limit - (if served then num + 1 else num))
                          (set_pebs s b) s1 s'
                          (elim (Bool-cases served) [
                            | inl one ↦ inl (rw one (ground arith))
                            | inr zip ↦ inr (rw zip refl)
                          ])
                          v d in
                      (
                        inv',
                        record {
                          cursors = all.cursors;
                          pebs =
                              rw (is_ring.again s.pebs (Ring.get (ring s.pebs)).1 (ring s'.pebs)) at
                                all.pebs;
                          heat = all.heat;
                          still = all.still;
                          page = all.page;
                          answer = all.answer;
                        },
                      ))
      ]
