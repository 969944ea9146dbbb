-- ===== src/Hosted/Store/Safety.antt =====
-- What holds of every store that calls of execution/hosted/store.py make of an empty one.
use mercury_tools.Prelude.{
  ℕ, ◌+◌, ◌*◌, ◌≤◌, true, some, List, length, inl, inr, ◌⊎◌, ◌≡◌, sym, ap, ◌∙◌, some_same,
}
use mercury_tools.Hosted.Operations.{Checks, HostedOperation}
use mercury_tools.Hosted.Operations.History.{History-events}
use mercury_tools.Hosted.Operations.Log.{IsLogged, History-IsLogged}
use mercury_tools.Hosted.Previews.{DocumentPreview, confirmed}
use mercury_tools.Hosted.Confirmation.{binds}
use mercury_tools.Hosted.Store.State.{World, empty_store, call_key, CallKey, has_item_key}
use mercury_tools.Hosted.Store.Calls.{Call, serve}
use mercury_tools.Hosted.Store.Invariant.{IsSound, store_calls-IsSound, empty_store-IsSound}

module _ (checks : Checks) (calls : List (World × Call)) where
  served-IsSound : IsSound checks (serve checks calls empty_store)
  served-IsSound = store_calls-IsSound checks calls empty_store (empty_store-IsSound checks)

  -- Every operation that the store has after any calls confirms a preview that the store has, which is
  -- confirmed and has the operation's identity, and no other operation confirms that preview.
  pub confirmed_once :
      (id : ℕ) (op : HostedOperation)
      → (serve checks calls empty_store).operations id ≡ some op
      → ((p : DocumentPreview) × ((serve checks calls empty_store).previews op.preview_id ≡ some p)
          × (p.state ≡ confirmed)
          × (binds op p ≡ true))
        × ((id' : ℕ) (op' : HostedOperation)
            → (serve checks calls empty_store).operations id' ≡ some op'
            → op'.preview_id ≡ op.preview_id
            → id' ≡ id)
  confirmed_once id op found =
      let h = served-IsSound.1.held id op found in
      (
        (h.preview, h.preview_held, h.preview_confirmed, h.bound),
        λ id' op' found' same.
            let h' = served-IsSound.1.held id' op' found' in
            some_same (
              sym h'.linked
              ∙ ap (serve checks calls empty_store).operation_by_preview same
              ∙ h.linked),
      )

  -- No two previews of the store have a provider call in common: neither the call of the whole preview
  -- nor the call of an item.
  pub provider_calls_once :
      (id id' : ℕ) (p p' : DocumentPreview) (key : CallKey)
      → (serve checks calls empty_store).previews id ≡ some p
      → (serve checks calls empty_store).previews id' ≡ some p'
      → (call_key p ≡ call_key p')
        ⊎ (has_item_key p p.items key ≡ true) × (has_item_key p' p'.items key ≡ true)
      → id ≡ id'
  provider_calls_once id id' p p' key found found' (inl same) = some_same (
      sym (served-IsSound.0.called id p found)
      ∙ ap (serve checks calls empty_store).preview_provider_calls same
      ∙ served-IsSound.0.called id' p' found')
  provider_calls_once id id' p p' key found found' (inr (k, k')) =
      served-IsSound.0.item_unique id id' p p' key found found' k k'

  -- The event log of every operation of the store, read from its start, is a chain of entries of the
  -- transition tables with versions that count up by one, and gives back the state and version of the
  -- operation and of each of its items.
  pub operations-IsLogged :
      (id : ℕ) (op : HostedOperation)
      → (serve checks calls empty_store).operations id ≡ some op
      → IsLogged op
  operations-IsLogged id op found = History-IsLogged (served-IsSound.1.held id op found).history

  -- An operation of the store with n items has at most 5 * (n + 1) + 1 events.
  pub operations-events :
      (id : ℕ) (op : HostedOperation)
      → (serve checks calls empty_store).operations id ≡ some op
      → length op.events ≤ 5 * (length op.items + 1) + 1
  operations-events id op found = History-events (served-IsSound.1.held id op found).history
