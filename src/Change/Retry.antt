-- ===== src/Change/Retry.antt =====
-- internal/service/service_change.go, `Retry`.
use levis.Base.{
  ℕ, ◌+◌, ◌-◌, ◌*◌, ◌==◌, Bool, true, false, not, ◌&&◌, ◌||◌, Option, none, some, String,
  if◌then◌else◌, ltb,
}
use levis.Base.Time.{Time, hour, minute}
use levis.Store.{
  Service, ChangeStatus, ServiceChange, HostAction, Db, first, Error, bad_request, not_found,
  conflict, ok, Action, pure, raise, raise_if, catch, select, ◌>>=◌, ◌>>◌,
}
use levis.Lifecycle.{interface_config, log_call}
use levis.Change.{
  Numbers, Resources, option_resources, resources_equal, is_applying, is_decided,
  change_status_code, set_status, points_to, finish_change,
}
use text.Mathlib.Text.{◌==◌ as str_eq}

unfoldable pub is_new : ChangeStatus → Bool
is_new ChangeStatus.reserved = true
is_new _ = false

-- The WHERE of the claim.
unfoldable pub is_as_read : ServiceChange → ServiceChange → Bool
is_as_read row c =
    c.id == row.id
    && change_status_code c.status == change_status_code row.status
    && c.updated_at == row.updated_at

-- What GetHost tells: the host's id, whether it is stopped or off, and its sizes.
pub record HostView : Type 0 where
  pub id : String
  pub is_off : Bool
  pub resources : Resources

pub data HostAnswer : Type 0 where
  -- an error, or no sizes
  failing : Error → HostAnswer
  showing : HostView → HostAnswer

-- What the call of a resize comes to: an error of InvalidArgument or Unimplemented, any other error, a reply
-- without success, or success.
pub data ResizeAnswer : Type 0 where
  rejected broken refused : Error → ResizeAnswer
  resized : ResizeAnswer

pub record Upstream : Type 0 where
  pub connected : Bool
  pub clock : ℕ → Time
  pub during : ℕ → Db → Db
  pub host : ℕ → HostAnswer
  pub resize : ℕ → ResizeAnswer

-- `result`: the change and the service of the user
unfoldable pub find_result : ℕ → ℕ → ℕ → Action (ServiceChange × Service)
find_result user_id id change_id = do
  s ←
      select (λ d. first (λ (s : Service). s.id == id && s.user_id == user_id) d.services)
        (not_found "服务不存在")
  row ←
      select
        (λ d.
          first
            (λ (c : ServiceChange). c.id == change_id && c.service_id == id && c.user_id == user_id)
            d.changes)
        (not_found "改配记录不存在")
  pure (row, s)

module _ (numbers : Numbers) (env : Upstream) where
  unfoldable pub read_clock : Action Time
  read_clock w = (ok (env.clock w.step), w)

  -- A call of the host: other requests commit before its answer is read.
  unfoldable pub ask_host : Action HostAnswer
  ask_host w = pure (env.host w.step) (record w { db = env.during w.step w.db; step = w.step + 1 })

  unfoldable pub send_resize : Service → Action ResizeAnswer
  unfolding log_call
  send_resize s w = pure (env.resize w.step) (record w {
    db = env.during w.step (log_call HostAction.resize s.id w.db);
    step = w.step + 1;
  })

  unfoldable pub shown : Service → HostAnswer → Action HostView
  shown s (failing e) = raise e
  shown s (showing view) = do
    raise_if (not (str_eq view.id s.upstream_host_id)) (conflict "上游主机标识不匹配")
    pure view

  -- `remote`
  unfoldable pub remote : Service → Action HostView
  unfolding interface_config ask_host shown
  remote s = do
    raise_if (not env.connected || (str_eq s.upstream_host_id "" || str_eq s.upstream_plugin_id ""))
        (bad_request "该服务不支持改配")
    interface_config s
    answer ← ask_host
    shown s answer

  module _ (user_id id : ℕ) where
    -- `uncertain`: the change waits for another look.
    unfoldable pub keep_uncertain : ServiceChange → Action (ServiceChange × Service)
    unfolding set_status read_clock find_result
    keep_uncertain row = do
      now ← read_clock
      set_status (λ c. c.id == row.id && is_applying c.status) ChangeStatus.uncertain now
      find_result user_id id row.id

    -- The code goes on with a result; an error makes the change uncertain.
    unfoldable pub go_on {ℓ} :
        {A : Type ℓ}
        → ServiceChange
        → (A → Action (ServiceChange × Service))
        → Option A
        → Action (ServiceChange × Service)
    unfolding keep_uncertain
    go_on row k none = keep_uncertain row
    go_on row k (some a) = k a

    unfoldable pub or_uncertain {ℓ} :
        {A : Type ℓ}
        → ServiceChange
        → Action A
        → (A → Action (ServiceChange × Service))
        → Action (ServiceChange × Service)
    unfolding go_on
    or_uncertain row m k = catch (m >>= λ a. pure (some a)) (λ _. pure none) >>= λ o. go_on row k o

    -- The same where the result is not looked at.
    unfoldable pub note_uncertain : ServiceChange → Action (Unit {0})
    unfolding keep_uncertain
    note_uncertain row = catch (keep_uncertain row >>= λ _. pure tt) (λ _. pure tt)

    -- The change is applied; an error of that is returned, and the change is uncertain.
    unfoldable pub finish_applied : ServiceChange → Action (ServiceChange × Service)
    unfolding finish_change note_uncertain
    finish_applied row = do
      now ← read_clock
      catch (finish_change row true now) (λ e. note_uncertain row >>= λ _. raise e)
      find_result user_id id row.id

    -- The change is refused for good, and what was reserved goes back.
    unfoldable pub finish_refused : ServiceChange → Action (ServiceChange × Service)
    unfolding finish_change or_uncertain
    finish_refused row = do
      now ← read_clock
      or_uncertain row (finish_change row false now) (λ _. find_result user_id id row.id)

    -- The host has to show what it was told.
    unfoldable pub confirm : ServiceChange → Service → Action (ServiceChange × Service)
    unfolding or_uncertain remote finish_applied
    confirm row s = or_uncertain row (remote s) λ view.
        if resources_equal numbers view.resources (option_resources numbers row.options)
        then finish_applied row
        else keep_uncertain row

    unfoldable pub after_resize :
        ServiceChange → Service → ResizeAnswer → Action (ServiceChange × Service)
    unfolding finish_refused confirm
    after_resize row s (rejected e) = finish_refused row
    after_resize row s (broken e) = keep_uncertain row
    after_resize row s (refused e) = keep_uncertain row
    after_resize row s resized = confirm row s

    -- What the claimed change does with what the host shows.
    unfoldable pub proceed : ServiceChange → Service → HostView → Action (ServiceChange × Service)
    unfolding after_resize send_resize is_new
    proceed row s view =
        let resize =
          or_uncertain row (interface_config s)
            λ _. (send_resize s >>= λ answer. after_resize row s answer) in
        if resources_equal numbers view.resources (option_resources numbers row.options)
        then finish_applied row
        else (if not (
              resources_equal numbers view.resources
                (option_resources numbers row.previous_resources))
            then keep_uncertain row
            else (if view.is_off
                then resize
                else (if is_new row.status then finish_refused row else keep_uncertain row)))

    unfoldable pub retry_open : ServiceChange → Service → Action (ServiceChange × Service)
    unfolding proceed is_as_read set_status
    retry_open row s = do
      raise_if (not (points_to s.change_pending_id row.id)) (conflict "服务预留已变化")
      now ← read_clock
      raise_if (is_applying row.status && ltb (now - row.updated_at) (2 * hour + minute))
          (conflict "改配正在处理")
      later ← read_clock
      rows ← set_status (is_as_read row) ChangeStatus.applying later
      raise_if (not (rows == 1)) (conflict "改配正在处理")
      or_uncertain row (remote s) (λ view. proceed row s view)

    unfoldable pub retry_found : ServiceChange → Service → Action (ServiceChange × Service)
    unfolding retry_open
    retry_found row s = if is_decided row.status then pure (row, s) else retry_open row s

    -- `Retry`
    unfoldable pub retry : ℕ → Action (ServiceChange × Service)
    unfolding retry_found find_result
    retry change_id = find_result user_id id change_id >>= λ (out : ServiceChange × Service).
        retry_found out.0 out.1
