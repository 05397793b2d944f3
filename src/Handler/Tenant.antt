-- ===== src/Handler/Tenant.antt =====
-- The routes of /v1 in main.go: what a request can do, and for which tenant.
use bs_notify_hub.Prelude.{
  ℕ, ◌||◌, ◌≡◌, ap, arith, true, false, ◌⊎◌, inl, inr, refl, String, Bool, Option, none, some, same,
  String-discrete, string_key, if◌then◌else◌,
}
use bs_notify_hub.Session
use bs_notify_hub.Session.{Store}
use bs_notify_hub.Ticket.{Bytes, TicketLib, TicketConfig}
use bs_notify_hub.Token.{JwtLib, MapClaims}
use bs_notify_hub.Token.Sound.{IsSoundJwt}
use bs_notify_hub.World.{Env}
use bs_notify_hub.Service.Inbox.{InboxPageReq}
use bs_notify_hub.Middleware.{
  Request, AuthConfig, Answer, proceeds, answers, answers_map, redirects, session_cookie_name,
  auth_middleware, resolve_tenant_id,
}
use bs_notify_hub.Middleware.Auth.{
  AcceptsToken, CarriesToken, HasSession, AuthOutcome, auth_middleware-outcome,
}
use bs_notify_hub.Handler.Sender
use bs_notify_hub.Handler.Status
use bs_notify_hub.Handler.Inbox
use bs_notify_hub.Handler.Hub
use bs_notify_hub.Handler.Valid.{
  is_set, valid_to_user, valid_to_users, valid_to_all, valid_page, valid_operate, valid_batch,
  valid_ticket,
}
use bs_notify_hub.Handler.Sender.{BaseSendReq, SendToUserReq, SendToUsersReq, SendToAllReq}
use bs_notify_hub.Handler.Status.{OperateNotifyStatusReq, BatchOperateNotifyStatusReq}
use bs_notify_hub.Handler.Hub.{ApplyTicketReq}
use bs_notify_hub.Handler.Routes.{
  V1, to_user, to_users, to_all, personal_page, tenant_page, read_one, delete_one, read_all,
  delete_all, ticket_apply, Server, Reply, in_world, in_tickets, sent, paged, done, handle, after,
  serve_v1,
}

abbrev on_some {ℓ} : {A : Type ℓ} → (A → A) → Option A → Option A
on_some f none = none
on_some f (some a) = some (f a)

abbrev base_for : (String → String) → BaseSendReq → BaseSendReq
base_for u b = record b { tenant_id = u b.tenant_id }

-- The same request, with the tenant of its body changed.
abbrev pub with_tenant : (String → String) → V1 → V1
with_tenant u (to_user r) =
    to_user (on_some (λ (q : SendToUserReq). record q { base = base_for u q.base }) r)
with_tenant u (to_users r) =
    to_users (on_some (λ (q : SendToUsersReq). record q { base = base_for u q.base }) r)
with_tenant u (to_all r) =
    to_all (on_some (λ (q : SendToAllReq). record q { base = base_for u q.base }) r)
with_tenant u (personal_page r) =
    personal_page (on_some (λ (q : InboxPageReq). record q { tenant_id = u q.tenant_id }) r)
with_tenant u (tenant_page r) =
    tenant_page (on_some (λ (q : InboxPageReq). record q { tenant_id = u q.tenant_id }) r)
with_tenant u (read_one r) =
    read_one (on_some (λ (q : OperateNotifyStatusReq). record q { tenant_id = u q.tenant_id }) r)
with_tenant u (delete_one r) =
    delete_one (on_some (λ (q : OperateNotifyStatusReq). record q { tenant_id = u q.tenant_id }) r)
with_tenant u (read_all r) =
    read_all
      (on_some (λ (q : BatchOperateNotifyStatusReq). record q { tenant_id = u q.tenant_id }) r)
with_tenant u (delete_all r) =
    delete_all
      (on_some (λ (q : BatchOperateNotifyStatusReq). record q { tenant_id = u q.tenant_id }) r)
with_tenant u (ticket_apply r) =
    ticket_apply (on_some (λ (q : ApplyTicketReq). record q { tenant = u q.tenant }) r)

-- The tenant that a request acts for: that of its credential, or if that is empty the body's. A body
-- that names none stays without, and is refused.
abbrev pub tenant_or : String → String → String
tenant_or t requested = if same requested "" || same t "" then requested else t

set_tenant : (t requested : String) → is_set requested ≡ is_set (tenant_or t requested)
set_tenant t requested = ground arith

resolved :
    (t requested : String)
    → is_set requested ≡ true
    → resolve_tenant_id (some t) requested ≡ tenant_or t requested
unfolding resolve_tenant_id
resolved t requested h = ground (arith, h)

-- Two requests that pass or fail the checks together.
by_checks :
    {A R : Type 0} (run : Option String → Option A → R) (t : String) (b b' : Bool) (q q' : A)
    → b ≡ b'
    → (b ≡ true → run (some t) (some q) ≡ run none (some q'))
    → run (some t) none ≡ run none none
    → run (some t) (if b then some q else none) ≡ run none (if b' then some q' else none)
by_checks run t true true q q' e h n = h refl
by_checks run t false false q q' e h n = n
by_checks run t true false q q' e h n = cc e
by_checks run t false true q q' e h n = cc e

module _ (env : Env) (tickets : TicketLib) (ticket_config : TicketConfig)
    (random : ℕ → Option Bytes) (redis_fails : Bool) where
  abbrev handled : Option String → V1 → Server → Reply × Server
  handled = handle env tickets ticket_config random redis_fails

  handle_for :
      (t : String) (v : V1) (s : Server)
      → handled (some t) v s ≡ handled none (with_tenant (tenant_or t) v) s
  unfolding handle resolve_tenant_id String-discrete valid_to_user valid_to_users valid_to_all
      valid_page valid_operate valid_batch valid_ticket
  handle_for t (to_user none) s = refl
  handle_for t (to_user (some q)) s =
      let with_ = λ (x : String). record q { base = record q.base { tenant_id = x } } in
      let q' = with_ (tenant_or t q.base.tenant_id) in
      by_checks
        (λ ctx r.
          in_world env tickets ticket_config random redis_fails sent s
            (Sender.send_to_user env ctx r s.world))
        t (valid_to_user q) (valid_to_user q') q q' (rw (set_tenant t q.base.tenant_id) refl)
        (λ v.
          ap
            (λ x.
              in_world env tickets ticket_config random redis_fails sent s
                (Sender.send_to_user env none (some (with_ x)) s.world))
            (resolved t q.base.tenant_id (ground (arith, v))))
        refl
  handle_for t (to_users none) s = refl
  handle_for t (to_users (some q)) s =
      let with_ = λ (x : String). record q { base = record q.base { tenant_id = x } } in
      let q' = with_ (tenant_or t q.base.tenant_id) in
      by_checks
        (λ ctx r.
          in_world env tickets ticket_config random redis_fails sent s
            (Sender.send_to_users env ctx r s.world))
        t (valid_to_users q) (valid_to_users q') q q' (rw (set_tenant t q.base.tenant_id) refl)
        (λ v.
          ap
            (λ x.
              in_world env tickets ticket_config random redis_fails sent s
                (Sender.send_to_users env none (some (with_ x)) s.world))
            (resolved t q.base.tenant_id (ground (arith, v))))
        refl
  handle_for t (to_all none) s = refl
  handle_for t (to_all (some q)) s =
      let with_ = λ (x : String). record q { base = record q.base { tenant_id = x } } in
      let q' = with_ (tenant_or t q.base.tenant_id) in
      by_checks
        (λ ctx r.
          in_world env tickets ticket_config random redis_fails sent s
            (Sender.broadcast env ctx r s.world))
        t (valid_to_all q) (valid_to_all q') q q' (rw (set_tenant t q.base.tenant_id) refl)
        (λ v.
          ap
            (λ x.
              in_world env tickets ticket_config random redis_fails sent s
                (Sender.broadcast env none (some (with_ x)) s.world))
            (resolved t q.base.tenant_id (ground (arith, v))))
        refl
  handle_for t (personal_page none) s = refl
  handle_for t (personal_page (some q)) s =
      let with_ = λ (x : String). record q { tenant_id = x } in
      let q' = with_ (tenant_or t q.tenant_id) in
      by_checks
        (λ ctx r.
          in_world env tickets ticket_config random redis_fails paged s
            (Inbox.get_personal_page env ctx r s.world))
        t (valid_page q) (valid_page q') q q' (rw (set_tenant t q.tenant_id) refl)
        (λ v.
          ap
            (λ x.
              in_world env tickets ticket_config random redis_fails paged s
                (Inbox.get_personal_page env none (some (with_ x)) s.world))
            (resolved t q.tenant_id (ground (arith, v))))
        refl
  handle_for t (tenant_page none) s = refl
  handle_for t (tenant_page (some q)) s =
      let with_ = λ (x : String). record q { tenant_id = x } in
      let q' = with_ (tenant_or t q.tenant_id) in
      by_checks
        (λ ctx r.
          in_world env tickets ticket_config random redis_fails paged s
            (Inbox.get_tenant_page env ctx r s.world))
        t (valid_page q) (valid_page q') q q' (rw (set_tenant t q.tenant_id) refl)
        (λ v.
          ap
            (λ x.
              in_world env tickets ticket_config random redis_fails paged s
                (Inbox.get_tenant_page env none (some (with_ x)) s.world))
            (resolved t q.tenant_id (ground (arith, v))))
        refl
  handle_for t (read_one none) s = refl
  handle_for t (read_one (some q)) s =
      let with_ = λ (x : String). record q { tenant_id = x } in
      let q' = with_ (tenant_or t q.tenant_id) in
      by_checks
        (λ ctx r.
          in_world env tickets ticket_config random redis_fails done s
            (Status.mark_read env ctx r s.world))
        t (valid_operate q) (valid_operate q') q q' (rw (set_tenant t q.tenant_id) refl)
        (λ v.
          ap
            (λ x.
              in_world env tickets ticket_config random redis_fails done s
                (Status.mark_read env none (some (with_ x)) s.world))
            (resolved t q.tenant_id (ground (arith, v))))
        refl
  handle_for t (delete_one none) s = refl
  handle_for t (delete_one (some q)) s =
      let with_ = λ (x : String). record q { tenant_id = x } in
      let q' = with_ (tenant_or t q.tenant_id) in
      by_checks
        (λ ctx r.
          in_world env tickets ticket_config random redis_fails done s
            (Status.delete_notify env ctx r s.world))
        t (valid_operate q) (valid_operate q') q q' (rw (set_tenant t q.tenant_id) refl)
        (λ v.
          ap
            (λ x.
              in_world env tickets ticket_config random redis_fails done s
                (Status.delete_notify env none (some (with_ x)) s.world))
            (resolved t q.tenant_id (ground (arith, v))))
        refl
  handle_for t (read_all none) s = refl
  handle_for t (read_all (some q)) s =
      let with_ = λ (x : String). record q { tenant_id = x } in
      let q' = with_ (tenant_or t q.tenant_id) in
      by_checks
        (λ ctx r.
          in_world env tickets ticket_config random redis_fails done s
            (Status.batch_mark_read env ctx r s.world))
        t (valid_batch q) (valid_batch q') q q' (rw (set_tenant t q.tenant_id) refl)
        (λ v.
          ap
            (λ x.
              in_world env tickets ticket_config random redis_fails done s
                (Status.batch_mark_read env none (some (with_ x)) s.world))
            (resolved t q.tenant_id (ground (arith, v))))
        refl
  handle_for t (delete_all none) s = refl
  handle_for t (delete_all (some q)) s =
      let with_ = λ (x : String). record q { tenant_id = x } in
      let q' = with_ (tenant_or t q.tenant_id) in
      by_checks
        (λ ctx r.
          in_world env tickets ticket_config random redis_fails done s
            (Status.batch_delete_notify env ctx r s.world))
        t (valid_batch q) (valid_batch q') q q' (rw (set_tenant t q.tenant_id) refl)
        (λ v.
          ap
            (λ x.
              in_world env tickets ticket_config random redis_fails done s
                (Status.batch_delete_notify env none (some (with_ x)) s.world))
            (resolved t q.tenant_id (ground (arith, v))))
        refl
  handle_for t (ticket_apply none) s = refl
  handle_for t (ticket_apply (some q)) s =
      let with_ = λ (x : String). record q { tenant = x } in
      let q' = with_ (tenant_or t q.tenant) in
      by_checks
        (λ ctx r. in_tickets env tickets ticket_config random redis_fails s (
          Hub.apply_ticket tickets ticket_config env.trace_id random redis_fails env.now ctx r
            s.tickets))
        t (valid_ticket q) (valid_ticket q') q q' (rw (set_tenant t q.tenant) refl)
        (λ v.
          ap
            (λ x. in_tickets env tickets ticket_config random redis_fails s (
              Hub.apply_ticket tickets ticket_config env.trace_id random redis_fails env.now none
                (some (with_ x)) s.tickets))
            (resolved t q.tenant (ground (arith, v))))
        refl

  module _ {PublicKey : Type 0} (lib : JwtLib PublicKey) (config : AuthConfig PublicKey)
      (signed : String → PublicKey → String → MapClaims → Type 0) where
    -- The two ends of a request to /v1.
    abbrev pub ServeOutcome : Request → V1 → Server → Reply × Server → Type 0
    ServeOutcome req v s r =
        ((t : String) × (CarriesToken lib config signed (req.header "Authorization") t
            ⊎ HasSession lib config s.sessions env.now req t)
          × (r ≡ handled none (with_tenant (tenant_or t) v) s))
        ⊎ ((r.1 ≡ s)
            × ((t : String) → ¬ AcceptsToken lib config env.now (req.header "Authorization") t)
            × (Session.get (req.cookie session_cookie_name) env.now s.sessions ≡ none))

    -- A request to /v1 is carried out only with a token of the service or a session that is alive.
    -- It then acts exactly as if its body named the tenant of that token or session, whatever tenant
    -- it does name. If the token or session has an empty tenant, as that of a login to the console
    -- has, the tenant is the one that the body names; and a body that names none is refused. Without
    -- token and session nothing changes.
    pub serve_v1-outcome :
        (req : Request) (v : V1) (s : Server)
        → IsSoundJwt lib signed
        → ServeOutcome req v s
            (serve_v1 env tickets ticket_config random redis_fails lib config req v s)
    unfolding serve_v1
    serve_v1-outcome req v s sound =
        by_answer (auth_middleware lib config s.sessions env.now req)
          (auth_middleware-outcome lib config signed s.sessions env.now req sound)
      where
        by_answer :
            (a : Answer)
            → AuthOutcome lib config signed s.sessions env.now req a
            → ServeOutcome req v s (after env tickets ticket_config random redis_fails a v s)
        by_answer (proceeds none) h = absurd h
        by_answer (proceeds (some t)) h = inl (t, h, handle_for t v s)
        by_answer (answers b) h = inr (refl, h.1, h.2)
        by_answer (answers_map status code msg) h = absurd h
        by_answer (redirects status to) h = absurd h
