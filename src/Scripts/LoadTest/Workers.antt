-- ===== src/Scripts/LoadTest/Workers.antt =====
-- The counts of scripts/loadtest.go against where its workers are.
use go_loadbalancer.Prelude.{
  ℕ, ◌+◌, ◌*◌, ◌^◌, ◌≤◌, ◌<◌, ◌≡◌, refl, ◌⊎◌, true, Bool-cases, inl, inr, arith, ltb,
}
use go_loadbalancer.Scripts.LoadTest.{
  Shared, Settings, Worker, Reply, waiting, finished, refused, took, ready, sending, timed, coded,
  judged, noted, bad_request, no_answer, answer, is_success, advance,
}
use go_loadbalancer.Prelude.Slots.{Holds}

-- A worker with a job that is not in `total` yet.
abbrev pub uncounted : Worker → ℕ
uncounted (took idx) = 1
uncounted (ready idx) = 1
uncounted _ = 0

-- A worker with a job that is in `total`, and in neither `success` nor `failure` yet.
abbrev pub unjudged : Worker → ℕ
unjudged (sending idx) = 1
unjudged (timed r) = 1
unjudged (coded r) = 1
unjudged refused = 1
unjudged _ = 0

abbrev pub returned : Worker → ℕ
returned finished = 1
returned _ = 0

-- The most steps that a worker makes before it takes another job, and 1 to return.
abbrev pub left : Worker → ℕ
left waiting = 1
left finished = 0
left refused = 2
left (took idx) = 8
left (ready idx) = 7
left (sending idx) = 6
left (timed r) = 5
left (coded r) = 4
left (judged r) = 3
left (noted r) = 2

-- The step of one worker, on the counts that it changes.
pub record Kept (st : Settings) (w : Worker) (s : Shared) (v : Worker) (t : Shared) : Type 0 where
  pub next_le : t.next ≤ st.requests
  pub next_grows : s.next ≤ t.next
  pub closed_same : t.closed ≡ s.closed
  pub total_exact : t.total + uncounted v + s.next ≡ s.total + uncounted w + t.next
  pub results_exact :
      t.success + t.failure + unjudged v + s.total ≡ s.success + s.failure + unjudged w + t.total
  pub returns_closed : (returned v ≤ returned w) ⊎ (s.closed ≡ true)
  pub shorter : left v + 8 * s.next < left w + 8 * t.next

-- The counters have room for one more.
pub record Room (s : Shared) : Type 0 where
  pub total : s.total + 1 < 2 ^ 32
  pub success : s.success + 1 < 2 ^ 32
  pub failure : s.failure + 1 < 2 ^ 32

pub advance-Kept :
    (st : Settings) (reply : Reply) (w : Worker) (s : Shared)
    → s.next ≤ st.requests
    → Room s
    → Holds (λ a. Kept st w s a.0 a.1) (advance st reply w s)
unfolding advance
advance-Kept st reply waiting s le room = elim (Bool-cases (ltb s.next st.requests)) [
  | inl more ↦ rw more (record {
    next_le = ground arith;
    next_grows = omega arith;
    closed_same = refl;
    total_exact = omega arith;
    results_exact = refl;
    returns_closed = inl (omega arith);
    shorter = omega arith;
  })
  | inr over ↦ elim (Bool-cases s.closed) [
    | inl closed ↦
        rw (over, closed)
          (record {
            next_le = le;
            next_grows = omega arith;
            closed_same = refl;
            total_exact = omega arith;
            results_exact = refl;
            returns_closed = inr refl;
            shorter = omega arith;
          })
    | inr still ↦ rw (over, still) tt
  ]
]
advance-Kept st reply finished s le room = tt
advance-Kept st reply refused s le room = ground (arith, le, room.failure)
advance-Kept st reply (took idx) s le room = ground (arith, le)
advance-Kept st reply (ready idx) s le room = ground (arith, le, room.total)
advance-Kept st bad_request (sending idx) s le room = ground (arith, le)
advance-Kept st (no_answer d) (sending idx) s le room = ground (arith, le)
advance-Kept st (answer b c d) (sending idx) s le room = ground (arith, le)
advance-Kept st reply (timed r) s le room = ground (arith, le)
advance-Kept st reply (coded r) s le room = elim (Bool-cases (is_success r.status)) [
  | inl ok ↦ rw ok (ground (arith, le, room.success))
  | inr bad ↦ rw bad (ground (arith, le, room.failure))
]
advance-Kept st reply (judged r) s le room = ground (arith, le)
advance-Kept st reply (noted r) s le room = elim (Bool-cases st.csv) [
  | inl on ↦ rw on (ground (arith, le))
  | inr off ↦ rw off (ground (arith, le))
]
