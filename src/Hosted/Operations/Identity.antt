-- ===== src/Hosted/Operations/Identity.antt =====
-- What no transition of an operation changes (execution/hosted/models.py).
use mercury_tools.Prelude.{
  ℕ, String, Option, none, List, [], ◌∷◌, ◌++◌, ok, ◌≡◌, refl, sym, ap, ◌∙◌,
}
use mercury_tools.Hosted.Transitions.{ParentOperationState as Parent, OperationItemState as Item}
use mercury_tools.Hosted.Operations.Models.{Checks, OperationItem, HostedOperation}
use mercury_tools.Hosted.Operations.Moves.{move_operation, move_operation_item, set_at}
use mercury_tools.Hosted.Operations.Steps.{ItemChange, move_operation-ok, move_operation_item-ok}
use mercury_tools.Hosted.Operations.History.{History, confirmed, moved, item_moved}

-- An item without its state, version, result and time of update.
abbrev pub item_identity : OperationItem → OperationItem
item_identity i = record i {
  state = Item.prepared;
  state_version = 0;
  provider_result_identifier = none;
  updated_at = 0;
}

abbrev pub item_identities : List OperationItem → List OperationItem
item_identities [] = []
item_identities (i ∷ is) = item_identity i ∷ item_identities is

-- An operation without what transitions change.
abbrev pub identity : HostedOperation → HostedOperation
identity op = record op {
  state = Parent.prepared;
  state_version = 0;
  items = item_identities op.items;
  events = [];
  updated_at = 0;
}

item_identities-append :
    (before : List OperationItem) (i j : OperationItem) (after : List OperationItem)
    → item_identity i ≡ item_identity j
    → item_identities (before ++ i ∷ after) ≡ item_identities (before ++ j ∷ after)
item_identities-append [] i j after e = ap (λ (x : OperationItem). x ∷ item_identities after) e
item_identities-append (x ∷ before) i j after e =
    ap (λ (xs : List OperationItem). item_identity x ∷ xs)
      (item_identities-append before i j after e)

pub moved-identity :
    (checks : Checks) (self : HostedOperation) (target : Parent) (event_id at : ℕ) (reason : String)
    {op : HostedOperation}
    → move_operation checks self target event_id at reason ≡ ok op
    → identity op ≡ identity self
moved-identity checks self target event_id at reason h =
    ap identity (move_operation-ok checks self target event_id at reason h).result

ItemChange-identities :
    {checks : Checks} {self : HostedOperation} {id : ℕ} {target : Item} {event_id at : ℕ}
    {reason : String} {op : HostedOperation}
    (c : ItemChange checks self id target event_id at reason op)
    → item_identities (set_at c.index c.new self.items) ≡ item_identities self.items
ItemChange-identities {self = self} c =
    let s = c.split in
    ap item_identities (s.replaced c.new)
    ∙ item_identities-append s.before c.new c.current s.after (ap item_identity c.moved.result)
    ∙ ap item_identities (sym s.whole)

pub item_moved-identity :
    (checks : Checks) (self : HostedOperation) (id : ℕ) (target : Item) (event_id at : ℕ)
    (reason : String) (given : Option String) {op : HostedOperation}
    → move_operation_item checks self id target event_id at reason given ≡ ok op
    → identity op ≡ identity self
item_moved-identity checks self id target event_id at reason given h =
    let c = move_operation_item-ok checks self id target event_id at reason given h in
    ap identity c.result
    ∙ ap (λ (is : List OperationItem). record (identity self) { items = is })
        (ItemChange-identities c)

-- The identity of an operation is the one that was confirmed.
pub History-identity :
    {checks : Checks} {start op : HostedOperation}
    → History checks start op
    → identity op ≡ identity start
History-identity (confirmed f) = refl
History-identity (moved target event_id at reason h e) =
    moved-identity _ _ target event_id at reason e ∙ History-identity h
History-identity (item_moved id target event_id at reason given h e) =
    item_moved-identity _ _ id target event_id at reason given e ∙ History-identity h
