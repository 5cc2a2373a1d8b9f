-- ===== src/Softint/Places.antt =====
-- project2/part1/softint.c: what the places of the parent and the children say of each other.
use xjtu_os_project.Prelude.{ℕ, ◌*◌, ◌≤◌, ◌≡◌, inl, inr, refl, List, arith}
use xjtu_os_project.Softint.{
  Child, starting, ready, reported, waiting, printing, ended, killed, Parent, reading,
  await_trigger, first_line, kill2, line2, kill1, line1, wait1, wait2, last_line, returned, Line,
  Trigger, sigint, sigquit, sigalrm, signo, IsClosed, IsGone, woken,
}
use xjtu_os_project.Softint.Children.{wrote_byte, done, dead, sent1, sent2, has_read}
use xjtu_os_project.Softint.Order.{IsTrigger, Printed, gone1, gone2}

-- The signals go out in order, when both children have reported, and before the parent waits.
pub places :
    (p : Parent)
    → (sent1 p ≤ sent2 p) × (sent2 p ≤ 1) × (2 * sent2 p ≤ has_read p) × (gone2 p ≤ gone1 p)
places (reading k) = omega arith
places (await_trigger w) = omega arith
places first_line = omega arith
places kill2 = omega arith
places line2 = omega arith
places kill1 = omega arith
places line1 = omega arith
places wait1 = omega arith
places wait2 = omega arith
places last_line = omega arith
places returned = omega arith

pub gone-ended : (c : Child) → dead c ≡ 0 → IsGone c → done c ≡ 1
gone-ended ended a g = refl
gone-ended killed a g = absurd (omega arith)
gone-ended starting a g = elim g [ ]
gone-ended ready a g = elim g [ ]
gone-ended reported a g = elim g [ ]
gone-ended (waiting w) a g = elim g [ ]
gone-ended printing a g = elim g [ ]

pub closed_wrote : (c : Child) → dead c ≡ 0 → IsClosed c → wrote_byte c ≡ 1
closed_wrote (waiting w) a g = refl
closed_wrote printing a g = refl
closed_wrote ended a g = refl
closed_wrote killed a g = absurd (omega arith)
closed_wrote starting a g = elim g [ ]
closed_wrote ready a g = elim g [ ]
closed_wrote reported a g = elim g [ ]

pub signo-IsTrigger : (t : Trigger) → IsTrigger (signo t)
signo-IsTrigger sigint = inl refl
signo-IsTrigger sigquit = inr (inl refl)
signo-IsTrigger sigalrm = inr (inr refl)

pub woken_same :
    (sig1 sig2 : ℕ) (p : Parent)
    → (sent1 (woken p) ≡ sent1 p)
      × (sent2 (woken p) ≡ sent2 p)
      × (has_read (woken p) ≡ has_read p)
      × (gone1 (woken p) ≡ gone1 p)
      × (gone2 (woken p) ≡ gone2 p)
woken_same sig1 sig2 (reading k) = omega arith
woken_same sig1 sig2 (await_trigger w) = omega arith
woken_same sig1 sig2 first_line = omega arith
woken_same sig1 sig2 kill2 = omega arith
woken_same sig1 sig2 line2 = omega arith
woken_same sig1 sig2 kill1 = omega arith
woken_same sig1 sig2 line1 = omega arith
woken_same sig1 sig2 wait1 = omega arith
woken_same sig1 sig2 wait2 = omega arith
woken_same sig1 sig2 last_line = omega arith
woken_same sig1 sig2 returned = omega arith

pub woken-Printed :
    (sig1 sig2 : ℕ) (p : Parent) (out : List Line)
    → Printed sig1 sig2 p out
    → Printed sig1 sig2 (woken p) out
woken-Printed sig1 sig2 (reading k) out b = b
woken-Printed sig1 sig2 (await_trigger w) out b = b
woken-Printed sig1 sig2 first_line out b = b
woken-Printed sig1 sig2 kill2 out b = b
woken-Printed sig1 sig2 line2 out b = b
woken-Printed sig1 sig2 kill1 out b = b
woken-Printed sig1 sig2 line1 out b = b
woken-Printed sig1 sig2 wait1 out b = b
woken-Printed sig1 sig2 wait2 out b = b
woken-Printed sig1 sig2 last_line out b = b
woken-Printed sig1 sig2 returned out b = b
