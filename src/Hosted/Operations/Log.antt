-- ===== src/Hosted/Operations/Log.antt =====
-- The event log of an operation of execution/hosted/models.py, read back as the states of the
-- operation and of its items. The code tests only the last event of each.
use mercury_tools.Prelude.{
  str_eq_refl, nat_refl, ℕ, ◌+◌, String, str_eq, Bool, true, false, ◌&&◌, Option, ok, All-around,
  All-apart, All-map, All-every, none, some, List, [], ◌∷◌, ◌++◌, All, ◌==◌, if◌then◌else◌, ◌≡◌,
  refl, ap, ◌∙◌, arith, subst,
}
use mercury_tools.Hosted.Transitions.{
  ParentOperationState as Parent, OperationItemState as Item, coerce_parent, coerce_item, parent_in,
  item_in, parent_transitions, item_transitions, parent_step, item_step,
}
use mercury_tools.Hosted.Operations.Models.{
  Checks, OperationItem, OperationEvent, HostedOperation, item_value, parent_value, is_parent_event,
  is_event_of, is_id,
}
use mercury_tools.Hosted.Operations.Moves.{
  move_operation, move_operation_item, parent_event, item_event, set_at,
}
use mercury_tools.Hosted.Operations.Values.{coerce-parent_value, coerce-item_value}
use mercury_tools.Hosted.Operations.Splits.{IsOther}
use mercury_tools.Hosted.Operations.Steps.{
  ItemMoved, ItemChange, move_operation-ok, move_operation_item-ok,
}
use mercury_tools.Hosted.Operations.History.{
  History, confirmed, moved, item_moved, IsFresh, IsFreshItem, IsFreshEvent,
}

-- Where a reader of the log has come to: the last state and version.
pub record Position : Type 0 where
  pub state : Option String
  pub version : ℕ

-- The entries of the tables, on texts.
unfoldable pub parent_edge : Option String → String → Bool
parent_edge none to = str_eq to "awaiting_confirmation"
parent_edge (some from) to = elim (coerce_parent from) [
  | none ↦ false
  | some source ↦ elim (coerce_parent to) [
    | none ↦ false
    | some target ↦ parent_in (parent_transitions source) target
  ]
]

unfoldable pub item_edge : Option String → String → Bool
item_edge none to = false
item_edge (some from) to = elim (coerce_item from) [
  | none ↦ false
  | some source ↦ elim (coerce_item to) [
    | none ↦ false
    | some target ↦ item_in (item_transitions source) target
  ]
]

abbrev pub same_state : Option String → Option String → Bool
same_state none none = true
same_state (some a) (some b) = str_eq a b
same_state _ _ = false

-- An event goes on from a position: it starts at its state, has the next version and is in the table.
abbrev pub continues : (Option String → String → Bool) → Position → OperationEvent → Bool
continues edge p e =
    same_state e.from_state p.state
    && e.state_version == p.version + 1
    && edge e.from_state e.to_state

unfoldable pub advance :
    (Option String → String → Bool)
    → (OperationEvent → Bool)
    → Option Position
    → OperationEvent
    → Option Position
advance edge about none e = none
advance edge about (some p) e =
    if about e
    then if continues edge p e
      then some (record { state = some e.to_state; version = e.state_version })
      else none
    else some p

-- Read a log from a position on; `none` if an event does not go on from the one before.
unfoldable pub replay :
    (Option String → String → Bool)
    → (OperationEvent → Bool)
    → Option Position
    → List OperationEvent
    → Option Position
replay edge about p [] = p
replay edge about p (e ∷ es) = replay edge about (advance edge about p e) es

replay-snoc :
    (edge : Option String → String → Bool) (about : OperationEvent → Bool) (p : Option Position)
    (es : List OperationEvent) (e : OperationEvent)
    → replay edge about p (es ++ e ∷ []) ≡ advance edge about (replay edge about p es) e
unfolding replay
replay-snoc edge about p [] e = refl
replay-snoc edge about p (x ∷ es) e = replay-snoc edge about (advance edge about p x) es e

abbrev pub parent_position : HostedOperation → Position
parent_position op = record { state = some (parent_value op.state); version = op.state_version }

abbrev pub item_position : OperationItem → Position
item_position i = record { state = some (item_value i.state); version = i.state_version }

abbrev pub parent_start : Option Position
parent_start = some (record { state = none; version = 0 })

abbrev pub item_start : Option Position
item_start = some (record { state = some "awaiting_confirmation"; version = 1 })

-- The log of the operation, read for the operation itself.
abbrev pub read_parent : List OperationEvent → Option Position
read_parent events = replay parent_edge is_parent_event parent_start events

-- The log of the operation, read for one item.
abbrev pub read_item : ℕ → List OperationEvent → Option Position
read_item id events = replay item_edge (is_event_of id) item_start events

-- The log, read for an item, ends at the item's state and version.
abbrev pub IsLoggedItem : List OperationEvent → OperationItem → Type 0
IsLoggedItem events i = read_item i.operation_item_id events ≡ some (item_position i)

pub record IsLogged (op : HostedOperation) : Type 0 where
  pub logged : read_parent op.events ≡ some (parent_position op)
  pub logged_items : All (IsLoggedItem op.events) op.items

parent_step-edge :
    (source target : Parent) (children : List Item)
    → parent_step source target children ≡ true
    → parent_edge (some (parent_value source)) (parent_value target) ≡ true
unfolding parent_step parent_edge
parent_step-edge source target children h =
    ground (arith, coerce-parent_value source, coerce-parent_value target)

item_step-edge :
    (source target : Item) (parent : Parent)
    → item_step source target parent ≡ true
    → item_edge (some (item_value source)) (item_value target) ≡ true
unfolding item_step item_edge
item_step-edge source target parent h =
    ground (arith, coerce-item_value source, coerce-item_value target)

-- An event about something else leaves the position.
advance-other :
    (edge : Option String → String → Bool) (about : OperationEvent → Bool) (p : Option Position)
    (e : OperationEvent)
    → about e ≡ false
    → advance edge about p e ≡ p
unfolding advance
advance-other edge about none e h = refl
advance-other edge about (some p) e h = rw h refl

-- An event that goes on from the position moves it.
advance-next :
    (edge : Option String → String → Bool) (about : OperationEvent → Bool) (from : String) (v : ℕ)
    (e : OperationEvent)
    → about e ≡ true
    → e.from_state ≡ some from
    → e.state_version ≡ v + 1
    → edge (some from) e.to_state ≡ true
    → advance edge about (some (record { state = some from; version = v })) e
      ≡ some (record { state = some e.to_state; version = e.state_version })
unfolding advance
advance-next edge about from v e a f n t = ground (arith, str_eq_refl from)

fresh_items-logged :
    (e : OperationEvent) (is : List OperationItem)
    → IsFreshEvent e
    → All IsFreshItem is
    → All (IsLoggedItem (e ∷ [])) is
unfolding replay advance
fresh_items-logged e [] f h = tt
fresh_items-logged e (i ∷ is) f h = (
  advance-other item_edge (is_event_of i.operation_item_id) item_start e (rw f.about_parent refl)
      ∙ rw (h.0.0, h.0.1) refl,
  fresh_items-logged e is f h.1,
)

starts_awaiting : (to : String) → to ≡ "awaiting_confirmation" → parent_edge none to ≡ true
unfolding parent_edge
starts_awaiting to e = rw e refl

read-first :
    (e : OperationEvent)
    → IsFreshEvent e
    → read_parent (e ∷ [])
      ≡ some (record { state = some (parent_value Parent.awaiting_confirmation); version = 1 })
unfolding replay advance
read-first e f = ground (arith, f, starts_awaiting e.to_state f.to_awaiting)

IsFresh-IsLogged : {checks : Checks} {op : HostedOperation} → IsFresh checks op → IsLogged op
IsFresh-IsLogged {op = op} f = record {
  logged = rw (f.one_event, f.awaiting, f.version) (read-first f.event f.fresh_event);
  logged_items = rw f.one_event (fresh_items-logged f.event op.items f.fresh_event f.fresh_items);
}

-- A log that goes on with events about something else.
All-snoc_other :
    (events : List OperationEvent) (e : OperationEvent) (is : List OperationItem)
    → All (λ i. is_event_of i.operation_item_id e ≡ false) is
    → All (IsLoggedItem events) is
    → All (IsLoggedItem (events ++ e ∷ [])) is
All-snoc_other events e [] o h = tt
All-snoc_other events e (i ∷ is) o h = (
  replay-snoc item_edge (is_event_of i.operation_item_id) item_start events e
      ∙ advance-other item_edge (is_event_of i.operation_item_id) _ e o.0
      ∙ h.0,
  All-snoc_other events e is o.1 h.1,
)

other_event :
    (id : ℕ) (current i : OperationItem)
    → (current.operation_item_id == id) ≡ true
    → IsOther id i
    → is_id i.operation_item_id (some current.operation_item_id) ≡ false
other_event id current i h o = ground arith

-- The item that moved: its log goes on with the event.
moved_item-logged :
    (events : List OperationEvent) {current new : OperationItem} {target : Item} {at : ℕ}
    {parent : Parent} (e : OperationEvent)
    → ItemMoved current target at parent new
    → IsLoggedItem events current
    → e.operation_item_id ≡ some current.operation_item_id
    → e.from_state ≡ some (item_value current.state)
    → e.to_state ≡ item_value new.state
    → e.state_version ≡ new.state_version
    → IsLoggedItem (events ++ e ∷ []) new
moved_item-logged events {current} {new} {target} {at} {parent} e m h a f t v =
    let id = current.operation_item_id in
    let same : new.operation_item_id ≡ id =
      ap (λ (i : OperationItem). i.operation_item_id) m.result in
    let state : new.state ≡ target = ap (λ (i : OperationItem). i.state) m.result in
    let version : new.state_version ≡ current.state_version + 1 =
      ap (λ (i : OperationItem). i.state_version) m.result in
    let about : is_event_of id e ≡ true = rw a (nat_refl id) in
    let step : item_edge (some (item_value current.state)) e.to_state ≡ true =
      rw (t, state) (item_step-edge current.state target parent m.allowed) in
    rw same (
      replay-snoc item_edge (is_event_of id) item_start events e
      ∙ ap (λ (p : Option Position). advance item_edge (is_event_of id) p e) h
      ∙ advance-next item_edge (is_event_of id) (item_value current.state) current.state_version e
          about f (v ∙ version) step
      ∙ rw (t, v) refl)

ItemChange-logged :
    {checks : Checks} {self : HostedOperation} {id : ℕ} {target : Item} {event_id at : ℕ}
    {reason : String} {op : HostedOperation}
    (c : ItemChange checks self id target event_id at reason op)
    → All (IsLoggedItem self.events) self.items
    → All
        (IsLoggedItem (self.events ++ item_event self c.current c.new event_id reason ∷ []))
        (set_at c.index c.new self.items)
ItemChange-logged {self = self} {id = id} {event_id = event_id} {reason = reason} c h =
    let s = c.split in
    let event = item_event self c.current c.new event_id reason in
    let (before, here, after) =
      All-apart (IsLoggedItem self.events) s.before c.current s.after
        (subst (All (IsLoggedItem self.events)) s.whole h) in
    let other = λ (i : OperationItem) (o : IsOther id i). other_event id c.current i s.found o in
    rw (s.replaced c.new) (
      All-around (IsLoggedItem (self.events ++ event ∷ [])) s.before c.new s.after
        (All-snoc_other self.events event s.before (All-map other s.before s.others_before) before)
        (moved_item-logged self.events event c.moved here refl refl refl refl)
        (All-snoc_other self.events event s.after (All-map other s.after s.others_after) after))

module _ (checks : Checks) where
  -- A transition of the operation writes an event that goes on from its log.
  moved-IsLogged :
      {self op : HostedOperation} (target : Parent) (event_id at : ℕ) (reason : String)
      → move_operation checks self target event_id at reason ≡ ok op
      → IsLogged self
      → IsLogged op
  moved-IsLogged {self} target event_id at reason e h =
      let m = move_operation-ok checks self target event_id at reason e in
      let event = parent_event self target event_id at reason in
      rw m.result (record {
        logged =
            replay-snoc parent_edge is_parent_event parent_start self.events event
            ∙ ap (λ (p : Option Position). advance parent_edge is_parent_event p event) h.logged
            ∙ advance-next parent_edge is_parent_event (parent_value self.state) self.state_version
                event refl refl refl (parent_step-edge self.state target _ m.allowed);
        logged_items =
            All-snoc_other self.events event self.items (All-every (λ i. refl) self.items)
              h.logged_items;
      })

  item_moved-IsLogged :
      {self op : HostedOperation} (id : ℕ) (target : Item) (event_id at : ℕ) (reason : String)
      (given : Option String)
      → move_operation_item checks self id target event_id at reason given ≡ ok op
      → IsLogged self
      → IsLogged op
  item_moved-IsLogged {self} id target event_id at reason given e h =
      let c = move_operation_item-ok checks self id target event_id at reason given e in
      let event = item_event self c.current c.new event_id reason in
      rw c.result (record {
        logged =
            replay-snoc parent_edge is_parent_event parent_start self.events event
            ∙ advance-other parent_edge is_parent_event _ event refl
            ∙ h.logged;
        logged_items = ItemChange-logged c h.logged_items;
      })

-- The log of an operation, read from its start, gives back the state and version of the operation
-- and of each of its items.
pub History-IsLogged :
    {checks : Checks} {start op : HostedOperation} → History checks start op → IsLogged op
History-IsLogged (confirmed f) = IsFresh-IsLogged f
History-IsLogged (moved target event_id at reason h e) =
    moved-IsLogged _ target event_id at reason e (History-IsLogged h)
History-IsLogged (item_moved id target event_id at reason given h e) =
    item_moved-IsLogged _ id target event_id at reason given e (History-IsLogged h)
