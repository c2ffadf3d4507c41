-- ===== src/Pebs/Policy.antt =====
-- src/pebs.c: one iteration of `pebs_policy_thread`. Each `while` loop runs on fuel; `none` is a
-- failed assertion or too little fuel.
use hemem.Prelude.{
  ℕ, zero, suc, ◌+◌, Bool, true, false, not, ◌&&◌, Option, none, some, Ptr, ltb, if◌then◌else◌,
  same_ptr, assert, ◌>>=◌, ◌>>◌,
}
use hemem.Ring
use hemem.Memory.Page.{pt_to_pagesize, total}
use hemem.Memory.Kernel.{Env}
use hemem.Ring.{RingBuf}
use hemem.Memory.State.{State, Pebs}
use hemem.Pebs.Lists.{
  dram_hot_list, dram_cold_list, dram_free_list, nvm_hot_list, nvm_cold_list, nvm_free_list,
  free_list_of, enqueue, dequeue, remove, list_of, set_hot, set_ring_present,
}
use hemem.Pebs.Scan.{set_pebs, hot_read_threshold}
use hemem.Pebs.Heat.{make_hot, make_cold}
use hemem.Pebs.Migrate.{exchange_up, exchange_down}
use hemem.Pebs.Alloc.{cold_page}
use hemem.Pebs.Cool.{partial_cool, update_current_cool_page}

abbrev pub hot_ring_reqs_threshold : ℕ
hot_ring_reqs_threshold = 1048576

abbrev pub cold_ring_reqs_threshold : ℕ
cold_ring_reqs_threshold = 128

-- PEBS_KSWAPD_MIGRATE_RATE, 10 GiB
abbrev pub migrate_rate : ℕ
migrate_rate = 10737418240

abbrev pub with_hot_ring : Pebs → RingBuf → Pebs
with_hot_ring b r = record b { hot_ring = r }

abbrev pub with_cold_ring : Pebs → RingBuf → Pebs
with_cold_ring b r = record b { cold_ring = r }

module _ {Table : Type 0} where
  -- A page that the application gave back goes to the free list of its tier.
  unfoldable pub free_page : ℕ → State Table → Option (State Table)
  free_page p s = elim (list_of s p) [
    | none ↦ none
    | some l ↦ do
      s ← update_current_cool_page p s
      s ← remove l p s
      enqueue (free_list_of (s.page p).in_dram) p s
  ]

  unfoldable pub free_pages : ℕ → State Table → Option (State Table)
  unfolding free_page
  free_pages zero s = none
  free_pages (suc fuel) s = elim (Ring.empty s.pebs.free_page_ring) [
    | true ↦ some s
    | false ↦
        let got = Ring.get s.pebs.free_page_ring in
        let s = set_pebs s (record (s.pebs) { free_page_ring = got.1 }) in
        elim got.0 [ none ↦ free_pages fuel s | some p ↦ do s ← free_page p s; free_pages fuel s ]
  ]

  -- A request for a page: `served` says whether it counts, `none` a request for a freed page.
  abbrev pub serve :
      (ℕ → State Table → Option (State Table)) → ℕ → State Table → Option (Bool × State Table)
  serve make p s =
      if not (s.page p).present
      then (do
        assert (same_ptr (list_of s p) (some (free_list_of (s.page p).in_dram)))
        some (false, s))
      else (do
        s ← update_current_cool_page p s
        s ← make p (set_ring_present p false s)
        some (true, s))

  -- The loop over a ring of requests, until it is empty or `limit` requests are served. The two
  -- loops of the code differ in the ring, in the function for a page and in the limit.
  unfoldable pub requests :
      (Pebs → RingBuf)
      → (Pebs → RingBuf → Pebs)
      → (ℕ → State Table → Option (State Table))
      → ℕ
      → ℕ
      → ℕ
      → State Table
      → Option (State Table)
  requests ring with_ring make limit zero num s = none
  requests ring with_ring make limit (suc fuel) num s =
      elim (not (Ring.empty (ring s.pebs)) && ltb num limit) [
        | false ↦ some s
        | true ↦
            let got = Ring.get (ring s.pebs) in
            let s = set_pebs s (with_ring s.pebs got.1) in
            elim got.0 [
              | none ↦ requests ring with_ring make limit fuel num s
              | some p ↦ do
                (served, s) ← serve make p s
                requests ring with_ring make limit fuel (if served then num + 1 else num) s
            ]
      ]

  unfoldable pub hot_requests : ℕ → ℕ → State Table → Option (State Table)
  unfolding requests
  hot_requests = requests (λ b. b.hot_ring) with_hot_ring make_hot hot_ring_reqs_threshold

  unfoldable pub cold_requests : ℕ → ℕ → State Table → Option (State Table)
  unfolding requests
  cold_requests = requests (λ b. b.cold_ring) with_cold_ring make_cold cold_ring_reqs_threshold

-- How the body of the migration loop ends: by `continue` with the bytes that it moved, by `break`,
-- or by `goto out`.
pub data Next (Table : Type 0) : Type 0 where
  continue : ℕ → State Table → Next Table
  stop : State Table → Next Table
  out : State Table → Next Table

module _ (e : Env) where
  abbrev S : Type 0
  S = State e.table.Table

  -- Page `p` goes up to the frame of the free page `np`.
  unfoldable pub move_up : ℕ → ℕ → S → Option S
  move_up p np s = do
    assert (not (s.page np).present)
    s ← exchange_up e p np s
    s ← enqueue dram_hot_list p s
    enqueue nvm_free_list np s

  -- Page `cp` goes down to the frame of the free page `np`.
  unfoldable pub move_down : ℕ → ℕ → S → Option S
  move_down cp np s = do
    assert (not (s.page np).present)
    s ← exchange_down e cp np s
    s ← enqueue nvm_cold_list cp s
    enqueue dram_free_list np s

  -- A cold DRAM page goes down, then the next try follows.
  abbrev pub demote : (S → Option (Next e.table.Table)) → ℕ → Ptr → S → Option (Next e.table.Table)
  demote retry cp none s = none
  demote retry cp (some np) s = do s ← move_down cp np s; retry s

  -- Without a cold DRAM page, the hot page goes back to its list.
  abbrev pub make_frame :
      (S → Option (Next e.table.Table)) → ℕ → Ptr → S → Option (Next e.table.Table)
  make_frame retry p none s = do s ← enqueue nvm_hot_list p s; some (out s)
  make_frame retry p (some cp) s = do (np, s) ← dequeue nvm_free_list s; demote retry cp np s

  abbrev pub use_frame :
      (S → Option (Next e.table.Table)) → ℕ → Ptr → S → Option (Next e.table.Table)
  use_frame retry p none s = do (cp, s) ← cold_page s; make_frame retry p cp s
  use_frame retry p (some np) s = do
    s ← move_up p np s
    some (continue (pt_to_pagesize (s.page p).pt) s)

  -- The two tries to find a DRAM frame for the hot NVM page `p`.
  unfoldable pub try_move : ℕ → ℕ → S → Option (Next e.table.Table)
  unfolding pt_to_pagesize move_up move_down
  try_move zero p s = some (continue 0 s)
  try_move (suc tries) p s = do
    (np, s) ← dequeue dram_free_list s
    use_frame (try_move tries p) p np s

  abbrev pub leave_nvm : ℕ → S → S
  leave_nvm p s =
      if same_ptr (some p) s.pebs.cur_cool_in_nvm
      then set_pebs s (record (s.pebs) { cur_cool_in_nvm = (s.store.fifo nvm_hot_list).first })
      else s

  -- A page that was cooled goes to the cold list, another one is to move.
  abbrev pub decide_hot : ℕ → S → Option (Next e.table.Table)
  decide_hot p s =
      if ltb (total (s.page p).accesses) hot_read_threshold
      then (do s ← enqueue nvm_cold_list p (set_hot p false s); some (continue 0 s))
      else try_move 2 p s

  abbrev pub migrate_hot : Ptr → S → Option (Next e.table.Table)
  migrate_hot none s = some (stop s)
  migrate_hot (some p) s = decide_hot p (leave_nvm p s)

  unfoldable pub migrate_one : S → Option (Next e.table.Table)
  unfolding try_move
  migrate_one s = do (o, s) ← dequeue nvm_hot_list s; migrate_hot o s

  -- The loop, with what follows it on the normal way: the two coolings.
  unfoldable pub cool_both : S → Option S
  cool_both s = do
    (d, s) ← partial_cool dram_hot_list dram_cold_list true s.pebs.cur_cool_in_dram s
    let s = set_pebs s (record (s.pebs) { cur_cool_in_dram = d })
    (n, s) ← partial_cool nvm_hot_list nvm_cold_list false s.pebs.cur_cool_in_nvm s
    some (set_pebs s (record (s.pebs) { cur_cool_in_nvm = n }))

  unfoldable pub migrate_loop : ℕ → ℕ → S → Option S
  unfolding migrate_one cool_both
  migrate_loop zero migrated s = none
  migrate_loop (suc fuel) migrated s = elim (ltb migrated migrate_rate) [
    | false ↦ cool_both s
    | true ↦ do
      r ← migrate_one s
      elim r [
        | continue moved s ↦ migrate_loop fuel (migrated + moved) s
        | stop s ↦ cool_both s
        | out s ↦ some s
      ]
  ]

  unfoldable pub policy_iteration : ℕ → S → Option S
  unfolding free_pages hot_requests cold_requests migrate_loop
  policy_iteration fuel s = do
    s ← free_pages fuel s
    s ← hot_requests fuel 0 s
    s ← cold_requests fuel 0 s
    migrate_loop fuel 0 s
