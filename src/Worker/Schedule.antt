-- ===== src/Worker/Schedule.antt =====
-- worker.rs: the delays between connection attempts, and the send times of a paced session.
use wsblast.Common.{
  ℕ, zero, suc, ◌+◌, ◌-◌, ◌*◌, ◌^◌, min, max, ◌≡◌, ap, ◌∙◌, Option, none, some, arith,
}
use native.Mathlib.Nat.{pow-suc}

-- 100 ms and 5 s.
abbrev pub initial_delay : ℕ
initial_delay = 100000000

abbrev pub max_delay : ℕ
max_delay = 5000000000

pub record ReconnectBackoff : Type 0 where
  pub next : ℕ

abbrev pub new_backoff : ReconnectBackoff
new_backoff = record { next = initial_delay }

-- The delay and the backoff after it; `Duration` is far from saturating below twice the cap.
unfoldable pub next_delay : ReconnectBackoff → ℕ × ReconnectBackoff
next_delay b = (b.next, record { next = min (2 * b.next) max_delay })

-- The backoff after some failed attempts.
unfoldable pub after_failures : ℕ → ReconnectBackoff → ReconnectBackoff
unfolding next_delay
after_failures zero b = b
after_failures (suc n) b = after_failures n (next_delay b).1

doubled_up_to :
    (n k : ℕ)
    → (after_failures n (record { next = min (initial_delay * 2 ^ k) max_delay })).next
      ≡ min (initial_delay * 2 ^ (k + n)) max_delay
unfolding after_failures next_delay
doubled_up_to zero k = ap (λ (e : ℕ). min (initial_delay * 2 ^ e) max_delay) (omega arith)
doubled_up_to (suc n) k =
    ap (λ (d : ℕ). (after_failures n (record { next = d })).next) (omega (arith, pow-suc 2 k))
    ∙ doubled_up_to n (suc k)
    ∙ ap (λ (e : ℕ). min (initial_delay * 2 ^ e) max_delay) (omega arith)

-- After `n` failed attempts in a row, the wait before the next one is 100 ms doubled `n` times, and
-- 5 s from where that is more.
pub next_delay-after_failures :
    (n : ℕ) → (next_delay (after_failures n new_backoff)).0 ≡ min (initial_delay * 2 ^ n) max_delay
unfolding next_delay
next_delay-after_failures n =
    doubled_up_to n 0 ∙ ap (λ (e : ℕ). min (initial_delay * 2 ^ e) max_delay) (omega arith)

pub record SendSchedule : Type 0 where
  pub period : ℕ
  pub next_due : ℕ

-- 2 ms; on Windows it is 16 ms.
abbrev pub timer_slack : ℕ
timer_slack = 2000000

-- The schedule of a session that starts now; the period is that of the rate, where there is one.
unfoldable pub new_schedule : Option ℕ → ℕ → Option SendSchedule
new_schedule none now = none
new_schedule (some period) now = some (record { period = period; next_due = now })

unfoldable pub advance : SendSchedule → SendSchedule
advance s = record s { next_due = s.next_due + s.period }

unfoldable pub shift : ℕ → SendSchedule → SendSchedule
shift delay s = record s { next_due = s.next_due + delay }

unfoldable pub restart_after_pause : ℕ → SendSchedule → SendSchedule
restart_after_pause now s = record s { next_due = max s.next_due now }

unfoldable pub response_time : ℕ → ℕ → ℕ → ℕ
response_time due sent_at rtt = rtt + (sent_at - due - timer_slack)
