-- ===== src/Change/Returns.antt =====
-- internal/service/service_change.go: how often a change gives money back.
use levis.Base.{
  ℕ, ◌+◌, ◌==◌, ◌≤◌, ◌≡◌, Bool, true, false, ◌&&◌, Option, none, some, List, [], ◌∷◌, arith, inl,
  inr, Bool-cases,
}
use levis.Base.Time.{Time}
use levis.Store.{Service, ChangeStatus, ServiceChange, Product, Db, World, Action, pure}
use levis.Store.Rules.{
  Always, always_rules, statement-Always, bind-Always, catch-Always, if-Always, pure-Always,
  raise-Always, raise_if-Always,
}
use levis.Lifecycle.{interface_of, interface_config, log_call}
use levis.Change.{Numbers, is_applying, is_decided, set_status}
use levis.Change.Ends.{
  given_back, open_rows, Within, open-moved, applying_open, as_read_open, finish-Always,
}
use levis.Change.Retry.{
  HostView, HostAnswer, failing, showing, ResizeAnswer, rejected, broken, refused, resized,
  Upstream, find_result, read_clock, ask_host, send_resize, shown, remote, keep_uncertain,
  note_uncertain, go_on, or_uncertain, finish_applied, finish_refused, confirm, after_resize,
  proceed, is_as_read, retry_open, retry_found, retry,
}

module _ (numbers : Numbers) (env : Upstream) (id k : ℕ)
    (keeps : (n : ℕ) (d : Db) → Within id k d → Within id k (env.during n d)) where
  abbrev I : Db → Type 0
  I d = Within id k d

  find-Always :
      (user_id service_id change_id : ℕ) → Always I (find_result user_id service_id change_id)
  unfolding find_result
  find-Always user_id service_id change_id = search always_rules

  clock-Always : Always I (read_clock numbers env)
  unfolding read_clock
  clock-Always = record { keeps = λ w h. h }

  ask-Always : Always I (ask_host numbers env)
  unfolding ask_host pure
  ask-Always = record { keeps = λ w h. keeps w.step w.db h }

  send-Always : (s : Service) → Always I (send_resize numbers env s)
  unfolding send_resize pure log_call
  send-Always s = record { keeps = λ w h. keeps w.step _ h }

  interface-Always : (p : Option Product) → Always I (interface_of p)
  unfolding interface_of
  interface-Always none = search always_rules
  interface-Always (some p) = search always_rules

  config-Always : (s : Service) → Always I (interface_config s)
  unfolding interface_config
  config-Always s = search (always_rules, interface-Always)

  shown-Always : (s : Service) (a : HostAnswer) → Always I (shown numbers env s a)
  unfolding shown
  shown-Always s (failing e) = search always_rules
  shown-Always s (showing view) = search always_rules

  remote-Always : (s : Service) → Always I (remote numbers env s)
  unfolding remote
  remote-Always s = search (always_rules, config-Always, ask-Always, shown-Always)

  status-Always :
      (p : ServiceChange → Bool) (status : ChangeStatus) (now : Time)
      → ((c : ServiceChange) → p c ≡ true → is_decided c.status ≡ false)
      → Always I (set_status p status now)
  unfolding set_status
  status-Always p status now opens =
      statement-Always I _ (λ d h. omega (arith, h, open-moved id p status now opens d.changes))

  module _ (user_id service_id : ℕ) where
    uncertain-Always :
        (row : ServiceChange) → Always I (keep_uncertain numbers env user_id service_id row)
    unfolding keep_uncertain
    uncertain-Always row = bind-Always I _ _ clock-Always λ now.
        bind-Always I _ _
          (status-Always (λ c. c.id == row.id && is_applying c.status) _ now
            (λ c h. applying_open c.status (ground arith)))
          (λ _. find-Always user_id service_id row.id)

    note-Always :
        (row : ServiceChange) → Always I (note_uncertain numbers env user_id service_id row)
    unfolding note_uncertain
    note-Always row =
        catch-Always I _ _ (bind-Always I _ _ (uncertain-Always row) (λ _. pure-Always I tt))
          (λ _. pure-Always I tt)

    go_on-Always {ℓ} :
        {A : Type ℓ} (row : ServiceChange) (f : A → Action (ServiceChange × Service)) (o : Option A)
        → ((a : A) → Always I (f a))
        → Always I (go_on numbers env user_id service_id row f o)
    unfolding go_on
    go_on-Always row f none h = uncertain-Always row
    go_on-Always row f (some a) h = h a

    or_uncertain-Always {ℓ} :
        {A : Type ℓ} (row : ServiceChange) (m : Action A) (f : A → Action (ServiceChange × Service))
        → Always I m
        → ((a : A) → Always I (f a))
        → Always I (or_uncertain numbers env user_id service_id row m f)
    unfolding or_uncertain
    or_uncertain-Always row m f hm hf =
        bind-Always I _ _
          (catch-Always I _ _ (bind-Always I _ _ hm (λ a. pure-Always I (some a)))
            (λ _. pure-Always I none))
          (λ o. go_on-Always row f o hf)

    applied-Always :
        (row : ServiceChange) → Always I (finish_applied numbers env user_id service_id row)
    unfolding finish_applied
    applied-Always row = bind-Always I _ _ clock-Always λ now.
        bind-Always I _ _
          (catch-Always I _ _ (finish-Always id k row true now)
            (λ e. bind-Always I _ _ (note-Always row) (λ _. raise-Always I e)))
          (λ _. find-Always user_id service_id row.id)

    refused-Always :
        (row : ServiceChange) → Always I (finish_refused numbers env user_id service_id row)
    unfolding finish_refused
    refused-Always row = bind-Always I _ _ clock-Always (λ now.
        or_uncertain-Always row _ _ (finish-Always id k row false now) (λ _. find-Always _ _ _))

    confirm-Always :
        (row : ServiceChange) (s : Service)
        → Always I (confirm numbers env user_id service_id row s)
    unfolding confirm
    confirm-Always row s =
        or_uncertain-Always row _ _ (remote-Always s)
          (λ view. if-Always I _ _ _ (applied-Always row) (uncertain-Always row))

    resize-Always :
        (row : ServiceChange) (s : Service) (a : ResizeAnswer)
        → Always I (after_resize numbers env user_id service_id row s a)
    unfolding after_resize
    resize-Always row s (rejected e) = refused-Always row
    resize-Always row s (broken e) = uncertain-Always row
    resize-Always row s (refused e) = uncertain-Always row
    resize-Always row s resized = confirm-Always row s

    proceed-Always :
        (row : ServiceChange) (s : Service) (view : HostView)
        → Always I (proceed numbers env user_id service_id row s view)
    unfolding proceed
    proceed-Always row s view = if-Always I _ _ _ (applied-Always row) (
        if-Always I _ _ _ (uncertain-Always row) (
          if-Always I _ _ _
            (or_uncertain-Always row _ _ (config-Always s)
              (λ _. bind-Always I _ _ (send-Always s) (λ a. resize-Always row s a)))
            (if-Always I _ _ _ (refused-Always row) (uncertain-Always row))))

    open-Always :
        (row : ServiceChange) (s : Service)
        → is_decided row.status ≡ false
        → Always I (retry_open numbers env user_id service_id row s)
    unfolding retry_open
    open-Always row s undecided = bind-Always I _ _ (raise_if-Always I _ _) λ _.
        bind-Always I _ _ clock-Always λ now. bind-Always I _ _ (raise_if-Always I _ _) λ _.
          bind-Always I _ _ clock-Always λ later.
            bind-Always I _ _
              (status-Always (is_as_read row) _ later (λ c h. as_read_open row c undecided h))
              λ rows. bind-Always I _ _ (raise_if-Always I _ _) (λ _.
                or_uncertain-Always row _ _ (remote-Always s) (λ view. proceed-Always row s view))

    found-Always :
        (row : ServiceChange) (s : Service)
        → Always I (retry_found numbers env user_id service_id row s)
    unfolding retry_found
    found-Always row s = elim (Bool-cases (is_decided row.status)) [
      | inl decided ↦ rw decided (pure-Always I (row, s))
      | inr undecided ↦ rw undecided (open-Always row s undecided)
    ]

    pub retry-Always : (change_id : ℕ) → Always I (retry numbers env user_id service_id change_id)
    unfolding retry
    retry-Always change_id =
        bind-Always I _ _ (find-Always user_id service_id change_id)
          (λ out. found-Always out.0 out.1)

-- A sequence of retries, each with what it meets.
pub record Attempt : Type 0 where
  pub env : Upstream
  pub user_id : ℕ
  pub service_id : ℕ
  pub change_id : ℕ

unfoldable pub retry_all : Numbers → List Attempt → World → World
retry_all numbers [] w = w
retry_all numbers (a ∷ rest) w =
    retry_all numbers rest (retry numbers a.env a.user_id a.service_id a.change_id w).1

-- What other requests commit gives no money of the change back and opens no row of it.
abbrev pub AllKeep : ℕ → List Attempt → Type 0
AllKeep id [] = Unit
AllKeep id (a ∷ rest) =
    ((k n : ℕ) (d : Db) → Within id k d → Within id k (a.env.during n d)) × AllKeep id rest

retry_all-Within :
    (numbers : Numbers) (id k : ℕ) (attempts : List Attempt) (w : World)
    → AllKeep id attempts
    → Within id k w.db
    → Within id k (retry_all numbers attempts w).db
unfolding retry_all
retry_all-Within numbers id k [] w keeps h = h
retry_all-Within numbers id k (a ∷ rest) w (here, later) h =
    retry_all-Within numbers id k rest _ later
      ((retry-Always numbers a.env id k (here k) a.user_id a.service_id a.change_id).keeps w h)

-- However often changes are retried, whatever the hosts answer and the driver fails, as long as the requests
-- that commit during the calls keep to it as well: the entries that give money of a change back grow by no
-- more than its rows that were not decided, that is by one at most for a change under way, and by none for
-- one that was applied or refused.
pub given_back-retry_all :
    (numbers : Numbers) (id : ℕ) (attempts : List Attempt) (w : World)
    → AllKeep id attempts
    → given_back id (retry_all numbers attempts w).db.transactions
      ≤ given_back id w.db.transactions + open_rows id w.db.changes
given_back-retry_all numbers id attempts w keeps = omega (
  arith,
  retry_all-Within numbers id (given_back id w.db.transactions + open_rows id w.db.changes) attempts
      w keeps (omega arith),
)
