-- ===== src/Lifecycle/Counters.antt =====
-- internal/service/lifecycle.go, `accumulateTraffic`: what its sums say of the traffic of a host.
use levis.Base.{
  ℕ, ◌+◌, ◌-◌, ◌≤◌, ◌<◌, ◌≡◌, ◌∙◌, ap, refl, Bool, true, false, List, [], ◌∷◌, arith, leb,
  if◌then◌else◌,
}
use levis.Base.Int.{ℤ, pos, ◌+ℤ◌, ◌-ℤ◌, leb_ℤ, i64_id, two_63}
use levis.Lifecycle.Traffic.{growth, accumulate_traffic}

-- What happens at a host: bytes come in or go out, it restarts, which clears its counters, and the patrol
-- takes a sample.
pub data HostEvent : Type 0 where
  received sent : ℕ → HostEvent
  restarted sampled : HostEvent

-- The columns of the service, the host's counters, and all bytes that ever came in or went out.
pub record Meter : Type 0 where
  pub used : ℤ
  pub last_rx : ℤ
  pub last_tx : ℤ
  pub rx : ℕ
  pub tx : ℕ
  pub total : ℕ

abbrev pub start : Meter
start = record { used = pos 0; last_rx = pos 0; last_tx = pos 0; rx = 0; tx = 0; total = 0 }

abbrev pub sample : Meter → Meter
sample m =
    let (used, rx, tx) = accumulate_traffic m.used m.last_rx m.last_tx (pos m.rx) (pos m.tx) in
    record m { used = used; last_rx = rx; last_tx = tx }

abbrev pub happen : HostEvent → Meter → Meter
happen (received n) m = record m { rx = m.rx + n; total = m.total + n }
happen (sent n) m = record m { tx = m.tx + n; total = m.total + n }
happen restarted m = record m { rx = 0; tx = 0 }
happen sampled m = sample m

abbrev pub run : List HostEvent → Meter → Meter
run [] m = m
run (e ∷ events) m = run events (happen e m)

abbrev pub never_restarts : List HostEvent → Bool
never_restarts [] = true
never_restarts (restarted ∷ events) = false
never_restarts (_ ∷ events) = never_restarts events

-- The bytes that the next sample adds for a counter.
abbrev pending : ℕ → ℕ → ℕ
pending last cur = if leb last cur then cur - last else cur

growth-pending :
    (last cur : ℕ) → cur < two_63 → growth (pos last) (pos cur) ≡ pos (pending last cur)
unfolding growth ◌-ℤ◌
growth-pending last cur fits = ground (arith, i64_id (pos (cur - last)))

pos_add : (a b : ℕ) → pos a +ℤ pos b ≡ pos (a + b)
unfolding ◌+ℤ◌
pos_add a b = ground arith

accumulate_traffic_lem :
    (used rx tx cur_rx cur_tx : ℕ)
    → cur_rx < two_63
    → cur_tx < two_63
    → used + pending rx cur_rx + pending tx cur_tx < two_63
    → accumulate_traffic (pos used) (pos rx) (pos tx) (pos cur_rx) (pos cur_tx)
      ≡ (pos (used + pending rx cur_rx + pending tx cur_tx), pos cur_rx, pos cur_tx)
unfolding accumulate_traffic
accumulate_traffic_lem used rx tx cur_rx cur_tx f g h = rw (
  growth-pending rx cur_rx f,
  growth-pending tx cur_tx g,
  pos_add used (pending rx cur_rx),
  i64_id (pos (used + pending rx cur_rx)) (omega arith),
  pos_add (used + pending rx cur_rx) (pending tx cur_tx),
  i64_id (pos (used + pending rx cur_rx + pending tx cur_tx)) (omega arith),
)

-- The columns, as natural numbers, with what the next sample would add, account for no more than all bytes.
abbrev Within : ℕ → ℕ → ℕ → Meter → Type 0
Within u l k m =
    (m.used ≡ pos u)
    × (m.last_rx ≡ pos l)
    × (m.last_tx ≡ pos k)
    × (u + pending l m.rx + pending k m.tx ≤ m.total)
    × (m.rx ≤ m.total)
    × (m.tx ≤ m.total)

abbrev IsWithin : Meter → Type 0
IsWithin m = (u l k : ℕ) × Within u l k m

-- They account for all bytes.
abbrev Exact : ℕ → ℕ → ℕ → Meter → Type 0
Exact u l k m = (l ≤ m.rx) × (k ≤ m.tx) × (u + (m.rx - l) + (m.tx - k) ≡ m.total)

abbrev IsExact : Meter → Type 0
IsExact m = (u l k : ℕ) × Within u l k m × Exact u l k m

sample-Within :
    (u l k : ℕ) (m : Meter)
    → m.total < two_63
    → Within u l k m
    → Within (u + pending l m.rx + pending k m.tx) m.rx m.tx (sample m)
sample-Within u l k m fits (eu, el, ek, sum, rx, tx) =
    rw
      (eu, el, ek, accumulate_traffic_lem u l k m.rx m.tx (omega arith) (omega arith) (omega arith))
      (refl, refl, refl, ground arith, rx, tx)

happen-IsWithin :
    (e : HostEvent) (m : Meter) → m.total < two_63 → IsWithin m → IsWithin (happen e m)
happen-IsWithin (received n) m fits (u, l, k, (eu, el, ek, sum, rx, tx)) =
    (u, l, k, (eu, el, ek, ground arith, omega arith, omega arith))
happen-IsWithin (sent n) m fits (u, l, k, (eu, el, ek, sum, rx, tx)) =
    (u, l, k, (eu, el, ek, ground arith, omega arith, omega arith))
happen-IsWithin restarted m fits (u, l, k, (eu, el, ek, sum, rx, tx)) =
    (u, l, k, (eu, el, ek, ground arith, omega arith, omega arith))
happen-IsWithin sampled m fits (u, l, k, w) =
    (u + pending l m.rx + pending k m.tx, m.rx, m.tx, sample-Within u l k m fits w)

happen-grows : (e : HostEvent) (m : Meter) → m.total ≤ (happen e m).total
happen-grows (received n) m = omega arith
happen-grows (sent n) m = omega arith
happen-grows restarted m = omega arith
happen-grows sampled m = omega arith

run-grows : (events : List HostEvent) (m : Meter) → m.total ≤ (run events m).total
run-grows [] m = omega arith
run-grows (e ∷ events) m = omega (arith, happen-grows e m, run-grows events (happen e m))

run-IsWithin :
    (events : List HostEvent) (m : Meter)
    → (run events m).total < two_63
    → IsWithin m
    → IsWithin (run events m)
run-IsWithin [] m fits w = w
run-IsWithin (e ∷ events) m fits w =
    run-IsWithin events (happen e m) fits
      (happen-IsWithin e m (omega (arith, happen-grows e m, run-grows events (happen e m))) w)

start-Within : Within 0 0 0 start
start-Within = (refl, refl, refl, ground arith, omega arith, omega arith)

-- However a host transfers bytes, restarts and is sampled, as long as fewer than 2^63 bytes have passed, the
-- bytes that a service is held to have used are at most those that came in and went out.
pub used-run :
    (events : List HostEvent)
    → (run events start).total < two_63
    → leb_ℤ (run events start).used (pos (run events start).total) ≡ true
used-run events fits =
    let (u, l, k, within) = run-IsWithin events start fits (0, 0, 0, start-Within) in
    rw (within.0) (let sum = within.3 in ground arith)

pending_up : (last cur : ℕ) → last ≤ cur → pending last cur ≡ cur - last
pending_up last cur h = ground arith

sample-Exact :
    (u l k : ℕ) (m : Meter) → Exact u l k m → u + pending l m.rx + pending k m.tx ≡ m.total
sample-Exact u l k m (below, under, sum) =
    omega (arith, pending_up l m.rx below, pending_up k m.tx under)

run-IsExact :
    (events : List HostEvent) (m : Meter)
    → (run events m).total < two_63
    → never_restarts events ≡ true
    → IsExact m
    → IsExact (run events m)
run-IsExact [] m fits calm x = x
run-IsExact (received n ∷ events) m fits calm
      (u, l, k, (eu, el, ek, sum, rx, tx), (below, under, all)) =
    run-IsExact events (happen (received n) m) fits calm (
      u,
      l,
      k,
      (eu, el, ek, ground arith, omega arith, omega arith),
      (omega arith, omega arith, omega arith),
    )
run-IsExact (sent n ∷ events) m fits calm
      (u, l, k, (eu, el, ek, sum, rx, tx), (below, under, all)) =
    run-IsExact events (happen (sent n) m) fits calm (
      u,
      l,
      k,
      (eu, el, ek, ground arith, omega arith, omega arith),
      (omega arith, omega arith, omega arith),
    )
run-IsExact (restarted ∷ events) m fits calm x = cc
run-IsExact (sampled ∷ events) m fits calm (u, l, k, w, x) =
    let small : m.total < two_63 = omega (arith, run-grows events (sample m)) in
    let exact = sample-Exact u l k m x in
    let taken = sample-Within u l k m small w in
    run-IsExact events (sample m) fits calm (
      u + pending l m.rx + pending k m.tx,
      m.rx,
      m.tx,
      taken,
      (omega arith, omega arith, omega (arith, exact)),
    )

-- If the host does not restart, a sample makes the bytes that the service is held to have used exactly those
-- that came in and went out, as long as they are fewer than 2^63.
pub used-sample :
    (events : List HostEvent)
    → (run events start).total < two_63
    → never_restarts events ≡ true
    → (sample (run events start)).used ≡ pos (run events start).total
used-sample events fits calm =
    let (u, l, k, w, x) =
      run-IsExact events start fits calm
        (0, 0, 0, start-Within, (omega arith, omega arith, omega arith)) in
    (sample-Within u l k (run events start) fits w).0
    ∙ ap pos (sample-Exact u l k (run events start) x)
