-- ===== src/Reply/Outcomes.antt =====
-- What a handler leaves, on the branches of a test and where it has replied.
use f.Prelude.{◌≡◌, subst, Option, none, some, Bool, true, false, if◌then◌else◌}
use f.Reply.{Reply, Handled, replied, raised, IfReplied, decided}

pub IfReplied-if {ℓ} :
    (P : Reply → Type ℓ) (test : Bool) (h k : Handled)
    → IfReplied P h
    → IfReplied P k
    → IfReplied P (if test then h else k)
IfReplied-if P true h k p q = p
IfReplied-if P false h k p q = q

pub IfReplied-sound {ℓ} :
    (P : Reply → Type ℓ) (h : Handled) {r : Reply} → IfReplied P h → h ≡ replied r → P r
IfReplied-sound P (replied s) p e = let same : s ≡ _ = cc e in subst P same p
IfReplied-sound P (raised s) p e = cc e

pub IfReplied-decided {ℓ} :
    (P : Reply → Type ℓ) (rep : Reply) (test : Option Bool) (h k : Handled)
    → IfReplied P h
    → IfReplied P k
    → IfReplied P (decided rep test h k)
IfReplied-decided P rep none h k p q = tt
IfReplied-decided P rep (some test) h k p q = IfReplied-if P test h k p q
