-- ===== src/Cards/Spec.antt =====
-- The board that a tenant sees: a map from keys to cards, and what each call of `CardStore` in
-- apps/backend/cfactory/cards.py answers and does to the map.
use cfactory.Prelude.{
  ℕ, ◌≡◌, true, false, Bool, Option, none, some, [], ◌∷◌, Text, text_eq, if◌then◌else◌,
}
use cfactory.Cards.{CardRow, CardCreate, Changes, no_runs}

abbrev pub Board : Type 0
Board = Text → Option CardRow

abbrev pub put : Text → Option CardRow → Board → Board
put key o b j = if text_eq key j then o else b j

-- A call, at its time, and its answer
pub data CardCall : Type 0 where
  create_card : ℕ → CardCreate → CardCall
  update_card : ℕ → Text → Changes → CardCall
  delete_card : ℕ → Text → CardCall

pub data Reply : Type 0 where
  card : CardRow → Reply
  card_if_any : Option CardRow → Reply
  was_there : Bool → Reply

-- A field after an update: as it was, if the update leaves it out, and else as the update has it
abbrev pub Sets {ℓ} : {A : Type ℓ} → Option A → A → A → Type ℓ
Sets none old new = new ≡ old
Sets (some value) old new = new ≡ value

pub record Updated (now : ℕ) (c : Changes) (old new : CardRow) : Type 0 where
  pub title : Sets c.title old.title new.title
  pub description : Sets c.description old.description new.description
  pub acceptance_criteria :
      Sets c.acceptance_criteria old.acceptance_criteria new.acceptance_criteria
  pub status : Sets c.status old.status new.status
  pub priority : Sets c.priority old.priority new.priority
  pub tier : Sets c.tier old.tier new.tier
  pub assignee : Sets c.assignee old.assignee new.assignee
  pub milestone : Sets c.milestone old.milestone new.milestone
  pub correlation_key : Sets c.correlation_key old.correlation_key new.correlation_key
  pub stage_runs : Sets c.stage_runs old.stage_runs new.stage_runs
  pub issue_ref : Sets c.issue_ref old.issue_ref new.issue_ref
  pub repository_id : Sets c.repository_id old.repository_id new.repository_id
  pub issue_state : Sets c.issue_state old.issue_state new.issue_state
  pub labels : Sets c.labels old.labels new.labels
  pub github_sync_error : Sets c.github_sync_error old.github_sync_error new.github_sync_error
  pub updated_at : new.updated_at ≡ now
  pub kept :
      (new.card_key ≡ old.card_key)
      × (new.tenant_id ≡ old.tenant_id)
      × (new.comments_synced_at ≡ old.comments_synced_at)
      × (new.deleted_at ≡ old.deleted_at)
      × (new.created_at ≡ old.created_at)

-- The key that the caller asks for, if it is not empty
abbrev pub Named : Option Text → Text → Type 0
Named none key = Unit
Named (some []) key = Unit
Named (some (c ∷ s)) key = key ≡ c ∷ s

pub record Created (t : Text) (now : ℕ) (body : CardCreate) (new : CardRow) : Type 0 where
  pub named : Named body.card_key new.card_key
  pub owner : new.tenant_id ≡ t
  pub fields :
      (new.title ≡ body.title)
      × (new.description ≡ body.description)
      × (new.acceptance_criteria ≡ body.acceptance_criteria)
      × (new.status ≡ body.status)
      × (new.priority ≡ body.priority)
      × (new.tier ≡ body.tier)
      × (new.assignee ≡ body.assignee)
      × (new.milestone ≡ body.milestone)
      × (new.correlation_key ≡ body.correlation_key)
      × (new.issue_ref ≡ body.issue_ref)
      × (new.repository_id ≡ body.repository_id)
  pub defaults :
      (new.stage_runs ≡ no_runs)
      × (new.issue_state ≡ none)
      × (new.labels ≡ [])
      × (new.github_sync_error ≡ none)
      × (new.comments_synced_at ≡ none)
      × (new.deleted_at ≡ none)
  pub times : (new.created_at ≡ now) × (new.updated_at ≡ now)

-- What a call that returns answers, and the board after it
pub data BoardStep (t : Text) (b : Board) : CardCall → Reply → Board → Type 0 where
  added :
      (now : ℕ) (body : CardCreate) (new : CardRow)
      → b new.card_key ≡ none
      → Created t now body new
      → BoardStep t b (create_card now body) (card new) (put new.card_key (some new) b)
  changed :
      (now : ℕ) (key : Text) (c : Changes) (old new : CardRow)
      → b key ≡ some old
      → Updated now c old new
      → BoardStep t b (update_card now key c) (card_if_any (some new)) (put key (some new) b)
  not_changed :
      (now : ℕ) (key : Text) (c : Changes)
      → b key ≡ none
      → BoardStep t b (update_card now key c) (card_if_any none) b
  dropped :
      (now : ℕ) (key : Text) (old : CardRow)
      → b key ≡ some old
      → BoardStep t b (delete_card now key) (was_there true) (put key none b)
  not_dropped :
      (now : ℕ) (key : Text)
      → b key ≡ none
      → BoardStep t b (delete_card now key) (was_there false) b
