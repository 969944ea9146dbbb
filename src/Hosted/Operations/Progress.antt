-- ===== src/Hosted/Operations/Progress.antt =====
-- The versions of an operation under the transitions of execution/hosted/models.py, and the states that
-- it cannot leave.
use mercury_tools.Prelude.{ℕ, ◌≤◌, String, true, Option, ok, ◌≡◌, refl, ap, ◌∙◌, arith}
use mercury_tools.Hosted.Transitions.{ParentOperationState as Parent, OperationItemState as Item}
use mercury_tools.Hosted.Transitions.Progress.{settled, settled_absorbs}
use mercury_tools.Hosted.Operations.Models.{Checks, HostedOperation}
use mercury_tools.Hosted.Operations.Moves.{move_operation, move_operation_item}
use mercury_tools.Hosted.Operations.Steps.{
  move_operation-ok, move_operation_item-ok, move_operation-Step, move_operation_item-Step,
}
use mercury_tools.Hosted.Operations.Identity.{identity, moved-identity, item_moved-identity}

-- What transitions that did not raise make of an operation.
pub data Later (checks : Checks) (op : HostedOperation) : HostedOperation → Type 0 where
  same : Later checks op op
  moved :
      {self op' : HostedOperation} (target : Parent) (event_id at : ℕ) (reason : String)
      → Later checks op self
      → move_operation checks self target event_id at reason ≡ ok op'
      → Later checks op op'
  item_moved :
      {self op' : HostedOperation} (id : ℕ) (target : Item) (event_id at : ℕ) (reason : String)
      (given : Option String)
      → Later checks op self
      → move_operation_item checks self id target event_id at reason given ≡ ok op'
      → Later checks op op'

pub Later-trans :
    {checks : Checks} {a b c : HostedOperation}
    → Later checks a b
    → Later checks b c
    → Later checks a c
Later-trans l same = l
Later-trans l (moved target event_id at reason m e) =
    moved target event_id at reason (Later-trans l m) e
Later-trans l (item_moved id target event_id at reason given m e) =
    item_moved id target event_id at reason given (Later-trans l m) e

-- The version of an operation never goes back.
pub Later-version :
    {checks : Checks} {a b : HostedOperation} → Later checks a b → a.state_version ≤ b.state_version
Later-version same = omega arith
Later-version (moved target event_id at reason l e) =
    let m = move_operation-ok _ _ target event_id at reason e in
    omega (arith, Later-version l, ap (λ (x : HostedOperation). x.state_version) m.result)
Later-version (item_moved id target event_id at reason given l e) =
    let c = move_operation_item-ok _ _ id target event_id at reason given e in
    omega (arith, Later-version l, ap (λ (x : HostedOperation). x.state_version) c.result)

pub Later-identity :
    {checks : Checks} {a b : HostedOperation} → Later checks a b → identity b ≡ identity a
Later-identity same = refl
Later-identity (moved target event_id at reason l e) =
    moved-identity _ _ target event_id at reason e ∙ Later-identity l
Later-identity (item_moved id target event_id at reason given l e) =
    item_moved-identity _ _ id target event_id at reason given e ∙ Later-identity l

-- A settled operation has no later version.
pub Later-settled :
    {checks : Checks} {a b : HostedOperation} → settled a.state ≡ true → Later checks a b → b ≡ a
Later-settled h same = refl
Later-settled {checks} {a} h (moved {self = self} target event_id at reason l e) = absurd (
    settled_absorbs (ap (λ (x : HostedOperation). settled x.state) (Later-settled h l) ∙ h)
      (move_operation-Step checks self target event_id at reason e))
Later-settled {checks} {a} h (item_moved {self = self} id target event_id at reason given l e) =
    absurd (
      settled_absorbs (ap (λ (x : HostedOperation). settled x.state) (Later-settled h l) ∙ h)
        (move_operation_item-Step checks self id target event_id at reason given e))
