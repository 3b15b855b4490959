-- ===== src/Node.antt =====
-- node/node.cpp: what the node does with an entry that a connection or a local application brings. The
-- four tables are those of the database's interface; running out of memory and the log are left out.
pub mod Fates
pub mod Again
pub mod Ends
use raddi.Base.{
  ℕ, zero, suc, ◌+◌, ◌-◌, ◌*◌, ◌/◌, ◌%◌, Bool, true, false, ◌&&◌, ◌||◌, not, List, [], ◌∷◌, length,
  drop, get_or, ltb, leb, ◌==◌, if◌then◌else◌, Option, none, some, ◌>>=◌, take,
}
use raddi.Time.{add32, sub32, older}
use raddi.Id.{Eid, of_iid}
use raddi.Content.Summary.{is_plain_line}
use raddi.Messages.Entry.{Announcement, not_an_announcement, is_announcement, proof, validate}
use raddi.Db.Row.{Entry, Root, size_of}
use raddi.Db.Facade.{
  Tables, Assessment, rejected, detached, classify, required, Level, thread, reply, nested, assess,
}
use raddi.Db.Facade as Db
use raddi.Noticed.{Noticed}
use raddi.Noticed as Seen
use raddi.Link.Transmitter.{count}
use raddi.Detached.{Detached}
use raddi.Detached as Waits
use raddi.Subscriptions.Sets.{SubscriptionSet, is_subscribed}

-- The settings that are read, and what stays the same while an entry is embraced: the clock, the sizes
-- of map nodes, and the subscriptions. The adjustment is an `int`, modulo 2^32.
pub record Settings : Type 0 where
  pub proof_complexity_requirements_adjustment : ℕ
  pub track_all_channels : Bool
  pub store_everything : Bool
  pub network_propagation_participation : Bool
  pub max_allowed_rejected_entries : ℕ
  pub max_allowed_unsolicited_entries : ℕ
  pub now : ℕ
  pub outer_node : ℕ
  pub inner_node : ℕ
  pub blacklist : SubscriptionSet
  pub subscriptions : SubscriptionSet

-- The counters of the connection that is the source.
pub record Source : Type 0 where
  pub rejected : ℕ
  pub unsolicited : ℕ

-- The state: of the tables, the caches, the source, which is `none` for local applications, what was
-- broadcast, the latest first, and how often an optimization was asked for.
pub record Node (State : Type 0) : Type 0 where
  pub tables : State
  pub recent : Noticed
  pub refused : Noticed
  pub detached : Detached
  pub source : Option Source
  pub broadcasts : List (Root × Entry)
  pub optimizations : ℕ

-- `consensus`.
abbrev pub max_entry_age_allowed : ℕ
max_entry_age_allowed = 600

abbrev pub max_thread_name_size : ℕ
max_thread_name_size = 340

abbrev pub max_channel_control_size : ℕ
max_channel_control_size = 87

-- `entry->content ()`, and `proof->complexity` without its bias, from the last byte.
abbrev pub content : Entry → List ℕ
content e = drop 64 e.body

abbrev pub complexity : Entry → ℕ
complexity e = get_or (content e) (length (content e) - 1) 0 / 16 % 4

-- A proof with at least the required complexity.
unfoldable pub is_proved : Settings → ℕ → Entry → Bool
is_proved settings requirement e =
    not (
      ltb (complexity e + 26) (add32 requirement settings.proof_complexity_requirements_adjustment))

-- `default_requirements ().complexity`.
abbrev pub default_complexity : Announcement → ℕ
default_complexity not_an_announcement = 26
default_complexity _ = 28

-- The content of a thread is a name, or controls a channel; other content is not limited here.
unfoldable pub fits : Entry → ℕ → Level → Bool
fits e content_size thread = leb content_size (
    if not (is_plain_line (take content_size (content e)) == 0)
    then max_thread_name_size
    else max_channel_control_size)
fits e content_size _ = true

abbrev pub min_thread_pow_complexity : ℕ
min_thread_pow_complexity = 27

unfoldable pub is_proved_at : Settings → Entry → Level → Bool
unfolding is_proved
is_proved_at settings e thread = is_proved settings min_thread_pow_complexity e
is_proved_at settings e _ = true

-- Is the entry too old to be propagated?
abbrev pub is_old : Settings → Entry → Bool
is_old settings e = older e.id.timestamp (sub32 settings.now max_entry_age_allowed)

-- The root of an entry whose place is not known.
abbrev zero_id : Eid
zero_id = record { timestamp = 0; identity = record { timestamp = 0; nonce = 0 } }

abbrev pub zero_root : Root
zero_root = record { channel = zero_id; thread = zero_id }

-- How one entry ends: with an answer, or with the entries that wait for it.
pub data Verdict : Type 0 where
  done : Bool → Verdict
  adopt : Verdict

module _ {State : Type 0} where
  abbrev pub refuse : Entry → Node State → Node State
  refuse e n = record n { refused = (Seen.insert e.id n.refused).0 }

  abbrev pub reject : Entry → Node State → Node State
  reject e n = record n { detached = (Waits.reject e.id n.detached).0 }

  abbrev pub broadcast : Root → Entry → Node State → Node State
  broadcast top e n = record n { broadcasts = (top, e) ∷ n.broadcasts }

  -- The rejected entry of a connection counts against it.
  unfoldable pub embrace_rejected : Settings → Entry → Node State → Node State × Bool
  embrace_rejected settings e n = elim n.source [
    | none ↦ (n, true)
    | some s ↦
        let m = record (reject e n) { source = some (record s { rejected = suc s.rejected }) } in
        (m, not (ltb settings.max_allowed_rejected_entries (suc s.rejected)))
  ]

  -- The entry without a parent: refused with its parent, or kept for it.
  unfoldable pub embrace_detached : Settings → Bool → Bool → Root → Entry → Node State → Node State
  embrace_detached settings old first top e n =
      let kept = record n {
        detached =
            Waits.insert settings.outer_node settings.inner_node settings.now e.parent e n.detached;
      } in
      if old
      then n
      else if Seen.count e.parent n.refused
      then reject e (refuse e n)
      else if first
      then broadcast top e kept
      else kept

module _ {State Key : Type 0} (t : Tables State Key) where
  -- The insertion, where `inserted` tells whether the entry is in `recent` since just now.
  unfoldable pub embrace_required :
      Bool → Bool → Bool → Root → Entry → Node State → Node State × Verdict
  embrace_required old first inserted top e n =
      let (tables, ok, exists) = Db.insert t e top n.tables in
      let m = record n { tables = tables } in
      let (recent, new) = if inserted then (m.recent, true) else Seen.insert e.id m.recent in
      let q = record m { recent = recent } in
      if not ok
      then (record m { optimizations = suc m.optimizations }, done true)
      else if exists
      then (m, done true)
      else if not new
      then (q, done true)
      else ((if first && not old then broadcast top e q else q), adopt)

  -- The ids that decide on whether an entry is wanted.
  abbrev pub lineage : Root → Entry → List Eid
  lineage top e = top.channel ∷ top.thread ∷ e.id ∷ of_iid e.id.identity ∷ []

  -- The entry that nobody asked for.
  unfoldable pub embrace_unsolicited :
      Settings → Bool → Root → Entry → Source → Node State → Node State × Verdict
  embrace_unsolicited settings old top e s n =
      let counted = record n { source = some (record s { unsolicited = suc s.unsolicited }) } in
      let m = if settings.network_propagation_participation then n else counted in
      if not settings.network_propagation_participation
        && ltb settings.max_allowed_unsolicited_entries (suc s.unsolicited)
      then (m, done false)
      else ((if old then m else broadcast top e m), done true)

  -- Behind the checks of an entry that has a place.
  unfoldable pub embrace_placed :
      Settings → Bool → Bool → Root → Entry → Node State → Node State × Verdict
  unfolding embrace_required embrace_unsolicited
  embrace_placed settings old first top e n =
      let store = embrace_required old first true top e n in
      if is_subscribed (lineage top e) settings.blacklist
      then (reject e (refuse e n), done true)
      else elim n.source [
        | none ↦ store
        | some s ↦
            if settings.store_everything || is_subscribed (lineage top e) settings.subscriptions
            then store
            else embrace_unsolicited settings old top e s n
      ]

  -- The checks of an entry that has a place.
  unfoldable pub embrace_classified :
      Settings → Bool → Bool → Root → Level → Entry → Node State → Node State × Verdict
  unfolding is_proved_at fits
  embrace_classified settings old first top level e n =
      let (recent, new) = Seen.insert e.id n.recent in
      let m = record n { recent = recent } in
      let placed =
        if settings.track_all_channels
        then (m, done true)
        else embrace_placed settings old first top e m in
      if not new then (m, done true) else elim (proof (content e)) [
        | none ↦ placed
        | some proof_size ↦
            if not (fits e (length (content e) - proof_size) level)
            then (refuse e m, done true)
            else if not (is_proved_at settings e level)
            then (refuse e m, done (not (settings.proof_complexity_requirements_adjustment == 0)))
            else placed
      ]

  -- The switch of `embrace`; `first` means that it was not called for a waiting entry.
  unfoldable pub embrace_as :
      Settings → Bool → Entry → Assessment → Node State → Node State × Verdict
  unfolding embrace_rejected embrace_detached embrace_required embrace_classified
  embrace_as settings first e rejected n =
      let (m, ok) = embrace_rejected settings e n in (m, done ok)
  embrace_as settings first e detached n =
      (embrace_detached settings (is_old settings e) first zero_root e n, done true)
  embrace_as settings first e (classify top level) n =
      embrace_classified settings (is_old settings e) first top level e n
  embrace_as settings first e required n =
      embrace_required (is_old settings e) first false zero_root e n

  -- `embrace`, without the entries that wait.
  unfoldable pub embrace_one : Settings → Bool → Entry → Node State → Node State × Verdict
  embrace_one settings first e n = embrace_as settings first e (assess t e n.tables) n

module _ {State : Type 0} where
  abbrev pub processed_one : Entry → Node State → Node State
  processed_one e n = record n {
    detached = record n.detached { processed = count n.detached.processed (size_of e) };
  }

  -- The callback for each of the waiting entries, until one answers `false`.
  unfoldable pub embrace_each :
      (Entry → Node State → Option (Node State × Bool))
      → List Entry
      → Node State
      → Option (Node State × Bool)
  embrace_each f [] n = some (n, true)
  embrace_each f (e ∷ es) n =
      f e n >>= (λ r. if r.1 then embrace_each f es (processed_one e r.0) else some r)

  -- `accept` of the detached entries: those that wait for the parent are removed, and then handed over.
  unfoldable pub accept_all :
      (Entry → Node State → Option (Node State × Bool))
      → Eid
      → Node State
      → Option (Node State × Bool)
  accept_all f p n = elim (Waits.find p.timestamp n.detached.groups) [
    | none ↦ some (n, true)
    | some waiting ↦ embrace_each f (Waits.range p.identity waiting) (record n {
      detached = record n.detached { groups = Waits.drop_range p n.detached.groups };
    })
  ]

  -- What a verdict leaves to do.
  unfoldable pub conclude :
      (Entry → Node State → Option (Node State × Bool))
      → Eid
      → Node State
      → Verdict
      → Option (Node State × Bool)
  unfolding accept_all
  conclude f p n (done ok) = some (n, ok)
  conclude f p n adopt = accept_all f p n

module _ {State Key : Type 0} (t : Tables State Key) (settings : Settings) where
  -- `embrace`, with fuel; `none` when it has run out.
  unfoldable pub embrace : ℕ → Bool → Entry → Node State → Option (Node State × Bool)
  unfolding conclude
  embrace zero first e n = none
  embrace (suc fuel) first e n =
      let (m, verdict) = embrace_one t settings first e n in
      conclude (embrace fuel false) e.id m verdict

  -- `connection::message` for data of the size of an entry with a proof: its answer `false` closes the
  -- connection. The nested calls are bounded by the fuel.
  unfoldable pub message : ℕ → Entry → Node State → Option (Node State × Bool)
  message fuel e n =
      if not (validate settings.now (record { id = e.id; parent = e.parent; content = content e }))
      then some (n, false)
      else if not (is_proved settings (default_complexity (is_announcement e.id e.parent)) e)
      then some (refuse e n, settings.proof_complexity_requirements_adjustment == 0)
      else embrace fuel true e n
