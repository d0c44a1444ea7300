-- ===== src/WorkItem/Threading.antt =====
-- What an event does to the key and the timeline of its row: `_already_recorded` and the writes of
-- `upsert_from_event` in apps/backend/cfactory/store.py.
use cfactory.Prelude.{
  ℕ, ◌≡◌, refl, ap, inl, inr, Bool, true, false, ◌||◌, Option, none, some, List, [], ◌∷◌, ◌++◌,
  arith, Text, text_eq, text_eq_refl, option_eq, option_eq_iff, truthy, Bool-cases, is_some, any,
}
use cfactory.WorkItem.{
  Service, ServiceState, same_service, CompletionEvent, WorkItemRow, set_column, pfactory,
  aifactory, tfactory,
}
use cfactory.WorkItem.Usage.{Worker}
use cfactory.WorkItem.Slices.{
  is_worker_event, is_worker_progress_event, already_recorded, same_worker,
}
use cfactory.WorkItem.Table.{Tenant, visible, selects}
use cfactory.WorkItem.Ingest.{thread_row}

pub key_of_set_column :
    (s : Service) (state : ServiceState) (row : WorkItemRow)
    → ((set_column s state row).correlation_key ≡ row.correlation_key)
      × ((set_column s state row).tenant_id ≡ row.tenant_id)
key_of_set_column pfactory state row = (refl, refl)
key_of_set_column aifactory state row = (refl, refl)
key_of_set_column tfactory state row = (refl, refl)

pub key_of_thread_row :
    (now : ℕ) (event : CompletionEvent) (w : Option Worker) (row : WorkItemRow)
    → ((thread_row now event w row).correlation_key ≡ row.correlation_key)
      × ((thread_row now event w row).tenant_id ≡ row.tenant_id)
unfolding thread_row
key_of_thread_row now event none row = key_of_set_column event.service _ row
key_of_thread_row now event (some w) row = elim (Bool-cases (is_worker_progress_event event)) [
  | inl beat ↦ rw beat (key_of_set_column event.service _ row)
  | inr other ↦ rw other (key_of_set_column event.service _ row)
]

pub selects-thread_row :
    (tenant : Tenant) (key : Text) (now : ℕ) (event : CompletionEvent) (w : Option Worker)
    (row : WorkItemRow)
    → selects tenant key (thread_row now event w row) ≡ selects tenant key row
unfolding selects visible
selects-thread_row none key now event w row =
    ap (λ k. text_eq k key) (key_of_thread_row now event w row).0
selects-thread_row (some t) key now event w row =
    rw (key_of_thread_row now event w row).0 (rw (key_of_thread_row now event w row).1 refl)

pub timeline_of_thread_row :
    (now : ℕ) (event : CompletionEvent) (w : Option Worker) (row : WorkItemRow)
    → is_worker_progress_event event ≡ false
    → (thread_row now event w row).timeline ≡ row.timeline ++ event ∷ []
unfolding thread_row
timeline_of_thread_row now event none row h = refl
timeline_of_thread_row now event (some w) row h = rw h refl

same_service_refl : (s : Service) → same_service s s ≡ true
same_service_refl pfactory = refl
same_service_refl aifactory = refl
same_service_refl tfactory = refl

same_worker_self :
    (e : CompletionEvent) (w : Option Worker)
    → e.worker ≡ w
    → is_some w ≡ true
    → same_worker e.service w e ≡ true
unfolding same_worker
same_worker_self e none q h = cc
same_worker_self e (some w) q h = rw (same_service_refl e.service) (rw q (text_eq_refl w.worker_id))

same_worker_refl :
    (e : CompletionEvent) → is_worker_event e ≡ true → same_worker e.service e.worker e ≡ true
unfolding is_worker_event
same_worker_refl e h = same_worker_self e e.worker refl (ground arith)

any-last :
    {A : Type 0} (p : A → Bool) (xs : List A) (x : A) → p x ≡ true → any p (xs ++ x ∷ []) ≡ true
any-last p [] x h = rw h refl
any-last p (y ∷ xs) x h = ground (arith, any-last p xs x h)

-- An event that can be told apart is found behind the timeline it was appended to.
pub already_recorded-append :
    (timeline : List CompletionEvent) (event : CompletionEvent)
    → is_worker_progress_event event ≡ false
    → (truthy event.id || is_worker_event event) ≡ true
    → already_recorded (timeline ++ event ∷ []) event ≡ true
unfolding already_recorded
already_recorded-append timeline event h d = elim (Bool-cases (truthy event.id)) [
  | inl named ↦ rw h (
      rw named (
        any-last (λ e. option_eq e.id event.id) timeline event
          ((option_eq_iff event.id event.id).1 refl)))
  | inr unnamed ↦ rw h (
      rw unnamed (
        rw (unnamed_worker unnamed) (
          any-last (same_worker event.service event.worker) timeline event
            (same_worker_refl event (unnamed_worker unnamed)))))
]
  where
    unnamed_worker : truthy event.id ≡ false → is_worker_event event ≡ true
    unnamed_worker u = rw u at d
