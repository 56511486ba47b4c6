-- ===== src/Resources/Listing/Windows.antt =====
-- The strategies of internal/services/resources/pagination.go for a list over several namespaces: what is
-- asked of Kubernetes for one origin (authorizeOrigin, fetchOrigin), and LazyMerge, which reads a bounded
-- window of origins until the page can be filled. The workers of a batch read the cursor as it was before
-- the batch, and their outcomes are applied in the order of the origins, so that a batch is one step.
mod Outcomes
pub mod Denials
use kubepeep.Base.{
  ℕ, zero, suc, ◌+◌, ◌-◌, String, Bool, true, false, not, ◌&&◌, ◌||◌, Option, none, some, List, [],
  ◌∷◌, ◌++◌, ltb, leb, ◌==◌, if◌then◌else◌, length, same_text, get_elem?, set,
}
use kubepeep.Resources.Listing.{
  Origin, OriginPage, OriginCursor, CompositeCursor, CursorError, Result, ok, err, Key, key_of,
  apply_origin_page,
}

abbrev default_fanout : ℕ
default_fanout = 4

abbrev maximum_configurable_fanout : ℕ
maximum_configurable_fanout = 8

abbrev default_origin_chunk_size : ℕ
default_origin_chunk_size = 10

abbrev max_origin_chunk_size : ℕ
max_origin_chunk_size = 50

pub data Decision : Type 0 where
  decision_allowed decision_denied decision_unknown : Decision

pub data ListError : Type 0 where
  list_forbidden : ListError
  list_failed : ℕ → ListError

-- A request and what it meets: `check` and `list_page` are asked at a moment, the number of outcomes that
-- the step has by then; `list_page` is `retryListPage` with a limit and a continue token. The context may
-- end, and then a batch hands only some of its origins to a worker.
pub record Request {ℓ} (Item : Type ℓ) : Type ℓ where
  pub limit : ℕ
  pub fanout : ℕ
  pub global_list_grant : Option Decision
  pub read_through_unknown : Bool
  pub check : ℕ → Origin → Decision
  pub list_page : ℕ → Origin → ℕ → String → OriginPage Item × Option ListError
  pub is_done : ℕ → Bool
  pub is_served : ℕ → ℕ → Bool

pub record OriginOutcome {ℓ} (Item : Type ℓ) : Type ℓ where
  pub page : OriginPage Item
  pub decision : Decision
  pub error : Option ListError
  pub queried : Bool
  pub authoritative : Bool

-- `allowed` has no entry for an origin that was not asked for.
pub record Scan {ℓ} (Item : Type ℓ) : Type ℓ where
  pub origins : List (OriginCursor Item)
  pub allowed : Key → Option Bool
  pub outcomes : List (OriginOutcome Item)
  pub progress : Bool

-- Where a loop stands: it goes on, the page can be filled, the context has ended, or a page was refused.
pub data Walk {ℓ} (Item : Type ℓ) : Type ℓ where
  going filled canceled : Scan Item → Walk Item
  refused : CursorError → Scan Item → Walk Item

pub normalize_fanout : ℕ → ℕ
normalize_fanout value =
    if value == 0
    then default_fanout
    else if ltb maximum_configurable_fanout value
    then maximum_configurable_fanout
    else value

pub origin_chunk_limit : ℕ → ℕ → ℕ
origin_chunk_limit origins page_limit =
    let chunk =
      if ltb max_origin_chunk_size default_origin_chunk_size
      then max_origin_chunk_size
      else default_origin_chunk_size in
    if leb origins 1 then page_limit else if ltb page_limit chunk then page_limit else chunk

abbrev pub is_allowed_decision : Decision → Bool
is_allowed_decision decision_allowed = true
is_allowed_decision _ = false

abbrev pub is_none {ℓ} : {A : Type ℓ} → Option A → Bool
is_none none = true
is_none (some x) = false

pub decision_after : Decision → Option ListError → Decision
decision_after decision (some list_forbidden) = decision_denied
decision_after decision _ = decision

module _ {ℓ} {Item : Type ℓ} where
  pub bare_outcome : Origin → Decision → Option ListError → OriginOutcome Item
  bare_outcome o decision error = record {
    page = record { origin = o; items = []; continue = ""; resource_version = "" };
    decision = decision;
    error = error;
    queried = false;
    authoritative = false;
  }

  -- What a check decides; where it is unknown, a list of one item may tell.
  pub probed : Origin → Decision → Bool → Option ListError → OriginOutcome Item
  unfolding bare_outcome
  probed o decision_unknown true none = bare_outcome o decision_allowed none
  probed o decision_unknown true (some list_forbidden) =
      bare_outcome o decision_denied (some list_forbidden)
  probed o decision_unknown true (some e) = bare_outcome o decision_unknown (some e)
  probed o decision _ _ = bare_outcome o decision none

  pub authorize : Request Item → ℕ → Option Decision → Origin → OriginOutcome Item
  unfolding probed
  authorize r moment (some grant) o = bare_outcome o grant none
  authorize r moment none o =
      probed o (r.check moment o) r.read_through_unknown (r.list_page moment o 1 "").1

  pub authorize_origin : Request Item → ℕ → Origin → OriginOutcome Item
  unfolding authorize
  authorize_origin r moment o = authorize r moment r.global_list_grant o

  -- A page without an origin gets that of the cursor.
  pub named_page : OriginCursor Item → OriginPage Item → OriginPage Item
  unfolding key_of
  named_page s page =
      if same_text (key_of page.origin) (47 ∷ 47 ∷ 47 ∷ [])
      then record page { origin = s.origin }
      else page

  pub fetch_origin : Request Item → ℕ → OriginCursor Item → ℕ → Decision → OriginOutcome Item
  unfolding named_page decision_after
  fetch_origin r moment s limit decision =
      let out = r.list_page moment s.origin limit s.continue in
      record {
        page = named_page s out.0;
        decision = decision_after decision out.1;
        error = out.1;
        queried = true;
        authoritative = is_none out.1;
      }

  -- The rest of a worker's turn, once the origin is authorized.
  pub work_on :
      Request Item
      → ℕ
      → ℕ
      → Bool
      → Option Bool
      → OriginCursor Item
      → OriginOutcome Item
      → OriginOutcome Item
  unfolding fetch_origin origin_chunk_limit
  work_on r moment count fetch (some false) s a = a
  work_on r moment count fetch _ s a =
      if fetch && is_allowed_decision a.decision
      then fetch_origin r moment s (origin_chunk_limit count r.limit) a.decision
      else a

  pub work :
      Request Item → ℕ → ℕ → Bool → (Key → Option Bool) → OriginCursor Item → OriginOutcome Item
  unfolding work_on authorize_origin key_of
  work r moment count fetch known s =
      work_on r moment count fetch (known (key_of s.origin)) s
        (record (authorize_origin r moment s.origin) {
          authoritative = s.exhausted || not (length s.buffered == 0);
        })

  pub with_outcome :
      ℕ
      → Bool
      → (OriginCursor Item → OriginOutcome Item)
      → Option (OriginCursor Item)
      → List (ℕ × OriginOutcome Item)
      → List (ℕ × OriginOutcome Item)
  with_outcome i true run (some s) later = (i, run s) ∷ later
  with_outcome i _ run _ later = later

  -- `runOriginWorkers`: the outcomes of the origins that were handed to a worker, in their order.
  pub run_origin_workers :
      Request Item
      → ℕ
      → Bool
      → (Key → Option Bool)
      → List (OriginCursor Item)
      → List ℕ
      → List (ℕ × OriginOutcome Item)
  unfolding work with_outcome
  run_origin_workers r moment fetch known os [] = []
  run_origin_workers r moment fetch known os (i ∷ is) =
      with_outcome i (r.is_served moment i) (work r moment (length os) fetch known) (get_elem? os i)
        (run_origin_workers r moment fetch known os is)

  pub allow : OriginOutcome Item → (Key → Option Bool) → Key → Option Bool
  unfolding key_of
  allow o known k =
      if same_text k (key_of o.page.origin) then some (is_allowed_decision o.decision) else known k

  pub note_outcome : OriginOutcome Item → Scan Item → Scan Item
  unfolding allow
  note_outcome o s = record s { outcomes = s.outcomes ++ o ∷ []; allowed = allow o s.allowed }

  pub note_all : List (ℕ × OriginOutcome Item) → Scan Item → Scan Item
  unfolding note_outcome
  note_all [] s = s
  note_all ((i, o) ∷ os) s = note_all os (note_outcome o s)

  pub authorized_buffered_count : List (OriginCursor Item) → (Key → Option Bool) → ℕ
  unfolding key_of
  authorized_buffered_count [] known = 0
  authorized_buffered_count (o ∷ os) known =
      let rest = authorized_buffered_count os known in
      elim (known (key_of o.origin)) [
        | none ↦ rest
        | some b ↦ (if b then length o.buffered else 0) + rest
      ]

  pub cursor_sources_exhausted : List (OriginCursor Item) → Bool
  cursor_sources_exhausted [] = true
  cursor_sources_exhausted (o ∷ os) = o.exhausted && cursor_sources_exhausted os

  pub then_walk : Walk Item → (Scan Item → Walk Item) → Walk Item
  then_walk (going s) more = more s
  then_walk w more = w

  -- The origins that are not exhausted, and have nothing that waits or have something.
  pub indices_of : ℕ → Bool → List (OriginCursor Item) → List ℕ
  indices_of i prefer_empty [] = []
  indices_of i prefer_empty (o ∷ os) =
      let rest = indices_of (i + 1) prefer_empty os in
      let is_empty = length o.buffered == 0 in
      if o.exhausted || (if prefer_empty then not is_empty else is_empty) then rest else i ∷ rest

  pub buffered_indices : ℕ → List (OriginCursor Item) → List ℕ
  buffered_indices i [] = []
  buffered_indices i (o ∷ os) =
      let rest = buffered_indices (i + 1) os in if length o.buffered == 0 then rest else i ∷ rest

module _ {ℓ} {Item : Type ℓ} where
  pub more_rounds : (Scan Item → Walk Item) → Scan Item → Walk Item
  unfolding cursor_sources_exhausted
  more_rounds more s =
      if not s.progress || cursor_sources_exhausted s.origins then going s else more s

  pub put_page : ℕ → Result (OriginCursor Item) → Scan Item → Walk Item
  put_page i (err e) s = refused e s
  put_page i (ok next) s = going (record s { origins = set s.origins i next; progress = true })

-- The slices of a list from every `n`-th position on: a first slice that has begun takes `room` more.
pub slices : ℕ → ℕ → List ℕ → List ℕ → List (List ℕ)
slices n room slice [] = slice ∷ []
slices n zero slice (i ∷ is) = slice ∷ slices n (n - 1) (i ∷ []) is
slices n (suc room) slice (i ∷ is) = slices n room (slice ++ i ∷ []) is

pub windows : ℕ → List ℕ → List (List ℕ)
unfolding slices
windows n [] = []
windows n (i ∷ is) = slices n (n - 1) (i ∷ []) is

module _ {ℓ} {Item : Type ℓ} (less : Item → Item → Bool) where
  pub apply_fetched : ℕ → OriginOutcome Item → Option (OriginCursor Item) → Scan Item → Walk Item
  unfolding put_page apply_origin_page
  apply_fetched i o none s = going s
  apply_fetched i o (some cursor) s =
      if is_none o.error && o.queried
      then put_page i (apply_origin_page less cursor o.page) s
      else going s

  pub apply_outcome : ℕ → OriginOutcome Item → Scan Item → Walk Item
  unfolding note_outcome apply_fetched
  apply_outcome i o s = apply_fetched i o (get_elem? s.origins i) (note_outcome o s)

  pub apply_outcomes : List (ℕ × OriginOutcome Item) → Scan Item → Walk Item
  unfolding apply_outcome then_walk
  apply_outcomes [] s = going s
  apply_outcomes ((i, o) ∷ os) s = then_walk (apply_outcome i o s) (λ t. apply_outcomes os t)

module _ {ℓ} {Item : Type ℓ} (r : Request Item) where
  pub check_filled : Scan Item → Walk Item
  unfolding authorized_buffered_count
  check_filled s =
      if leb r.limit (authorized_buffered_count s.origins s.allowed) then filled s else going s

module _ {ℓ} {Item : Type ℓ} (less : Item → Item → Bool) (r : Request Item) where
  pub read_window : List ℕ → Scan Item → Walk Item
  unfolding apply_outcomes run_origin_workers check_filled then_walk
  read_window indices s =
      if r.is_done (length s.outcomes)
      then canceled s
      else then_walk
          (apply_outcomes less
            (run_origin_workers r (length s.outcomes) true s.allowed s.origins indices) s)
          (check_filled r)

  pub read_windows : List (List ℕ) → Scan Item → Walk Item
  unfolding read_window then_walk
  read_windows [] s = going s
  read_windows (w ∷ ws) s = then_walk (read_window w s) (λ t. read_windows ws t)

  -- One turn of the loop over `preferEmpty`.
  pub read_pass : Bool → Scan Item → Walk Item
  unfolding read_windows windows indices_of normalize_fanout
  read_pass prefer_empty s =
      read_windows (windows (normalize_fanout r.fanout) (indices_of 0 prefer_empty s.origins)) s

  pub round : Scan Item → Walk Item
  unfolding read_pass then_walk
  round s = then_walk (read_pass true (record s { progress = false })) (read_pass false)

  -- The loop, after as many rounds as given.
  pub rounds : ℕ → Scan Item → Walk Item
  unfolding round more_rounds then_walk
  rounds zero s = going s
  rounds (suc n) s = then_walk (round s) (more_rounds (λ t. rounds n t))

  -- `LazyMerge.Next`, after as many rounds of its loop as given.
  unfoldable pub next : ℕ → CompositeCursor Item → Walk Item
  unfolding rounds note_all run_origin_workers buffered_indices check_filled then_walk
  next n c =
      let start : Scan Item = record {
        origins = c.origins;
        allowed = λ k. none;
        outcomes = [];
        progress = false;
      } in
      let asked =
        run_origin_workers r 0 false (λ k. none) c.origins (buffered_indices 0 c.origins) in
      then_walk (check_filled r (note_all asked start)) (rounds n)
