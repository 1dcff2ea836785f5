-- ===== src/Store/Approvals/Settled.antt =====
-- How the operations of `Store.Approvals` and `Store.Decisions` change the approvals.
use planet_express.Prelude.{
  Bool, true, false, Option, none, some, List, [], ◌∷◌, ◌++◌, ◌≡◌, ap, ◌∙◌, arith, is_some, Evolves,
  Evolves-refl, Evolves-append, Evolves-update_where, Evolves-trans, All, Option-cases, find_row,
  DistinctOn, All-intro, update_where, DistinctOn-update_where, DistinctOn-append, inl, inr,
  count_where, count_where-update_where-le, ◌≤◌, All-map, refl, ◌&&◌, Bool-cases,
  count_where-append, find_row_none,
}
use native.Mathlib.Nat.{le_trans}
use planet_express.Store.Rows.{Text, Time, Approval, ApprovalStatus, Db, EventDetail, is_pending}
use planet_express.Store.Tx.{event}
use planet_express.Store.Keeps.{Keeps, keeps_rules}
use planet_express.Store.Approvals.{
  stale, expire, decide, update_approvals, insert_approval, expire_stale, new_approval, Proposal,
  source_guard, same_source, link_incident, reuse_or_create, propose, propose_runbook, has_id,
  pending_for,
}

abbrev pub is_decided : ApprovalStatus → Bool
is_decided ApprovalStatus.approved = true
is_decided ApprovalStatus.denied = true
is_decided _ = false

-- Exactly a decided approval says who decided it, and when.
pub record IsCoherent (a : Approval) : Type 0 where
  pub by : is_some a.decided_by ≡ is_decided a.status
  pub at : is_some a.decided_at ≡ is_decided a.status

-- What may become of a row: what was asked for stays, and once it is not pending its status and its
-- decision stay too.
pub record Advances (a b : Approval) : Type 0 where
  pub id : b.id ≡ a.id
  pub action : b.action ≡ a.action
  pub target_key : b.target_key ≡ a.target_key
  pub target_json : b.target_json ≡ a.target_json
  pub plan_json : b.plan_json ≡ a.plan_json
  pub plan_sha256 : b.plan_sha256 ≡ a.plan_sha256
  pub expires_at : b.expires_at ≡ a.expires_at
  pub status : is_pending a.status ≡ false → b.status ≡ a.status
  pub decided_by : is_pending a.status ≡ false → b.decided_by ≡ a.decided_by
  pub decided_at : is_pending a.status ≡ false → b.decided_at ≡ a.decided_at
  pub coherent : IsCoherent a → IsCoherent b

pub Advances-refl : (a : Approval) → Advances a a
Advances-refl a = ground arith

pub Advances-trans : (a b c : Approval) → Advances a b → Advances b c → Advances a c
Advances-trans a b c p q = record {
  id = cc;
  action = cc;
  target_key = cc;
  target_json = cc;
  plan_json = cc;
  plan_sha256 = cc;
  expires_at = cc;
  status = λ h. q.status (ap is_pending (p.status h) ∙ h) ∙ p.status h;
  decided_by = λ h. q.decided_by (ap is_pending (p.status h) ∙ h) ∙ p.decided_by h;
  decided_at = λ h. q.decided_at (ap is_pending (p.status h) ∙ h) ∙ p.decided_at h;
  coherent = λ h. q.coherent (p.coherent h);
}

-- The approvals of `db` are those of `rows`, advanced, and new ones behind them; and their ids are
-- distinct, and at most one of them is pending for an action and a target.
pub record Since (rows : List Approval) (db : Db) : Type 0 where
  pub history : Evolves Advances IsCoherent rows db.approvals
  pub distinct : DistinctOn (λ (a : Approval). a.id) db.approvals
  pub one_pending :
      (action target_key : Text) → count_where (pending_for action target_key) db.approvals ≤ 1

pub Since-refl :
    (db : Db)
    → DistinctOn (λ (a : Approval). a.id) db.approvals
    → ((action target_key : Text) → count_where (pending_for action target_key) db.approvals ≤ 1)
    → Since db.approvals db
Since-refl db d u = record {
  history = Evolves-refl Advances IsCoherent Advances-refl db.approvals;
  distinct = d;
  one_pending = u;
}

-- What is pending was pending before, for the same action and target.
Advances-pending_for :
    (action target_key : Text) (a b : Approval)
    → Advances a b
    → pending_for action target_key b ≡ true
    → pending_for action target_key a ≡ true
Advances-pending_for action target_key a b h e = ground arith

Since-trans :
    (xs ys zs : List Approval)
    → Evolves Advances IsCoherent xs ys
    → Evolves Advances IsCoherent ys zs
    → Evolves Advances IsCoherent xs zs
Since-trans = Evolves-trans Advances IsCoherent Advances-trans (λ a b h e. e.coherent h)

same_key :
    (action target_key : Text) (a : Approval)
    → pending_for action target_key a ≡ true
    → pending_for a.action a.target_key ≡ pending_for action target_key
same_key action target_key a e = rw (same_action, same_target) refl
  where
    same_action : a.action ≡ action
    same_action = ground arith

    same_target : a.target_key ≡ target_key
    same_target = ground arith

count_one_false :
    (action target_key : Text) (a : Approval)
    → pending_for action target_key a ≡ false
    → count_where (pending_for action target_key) (a ∷ []) ≡ 0
count_one_false action target_key a e = rw e refl

one_pending_append :
    (action target_key : Text) (a : Approval) (xs : List Approval)
    → count_where (pending_for action target_key) xs ≤ 1
    → (is_pending a.status && is_some (find_row (pending_for a.action a.target_key) xs)) ≡ false
    → count_where (pending_for action target_key) (xs ++ a ∷ []) ≤ 1
one_pending_append action target_key a xs le alone =
    elim (Bool-cases (pending_for action target_key a)) [
      | inl e ↦ ground (
        arith,
        count_where-append (pending_for action target_key) xs (a ∷ []),
        same_key action target_key a e,
        find_row_none (pending_for action target_key) xs,
        ap (λ (q : Approval → Bool). is_some (find_row q xs)) (same_key action target_key a e),
      )
      | inr e ↦ omega (
        arith,
        count_where-append (pending_for action target_key) xs (a ∷ []),
        count_one_false action target_key a e,
      )
    ]

module _ (rows : List Approval) where
  pub update-Since :
      (p : Approval → Bool) (f : Approval → Approval) (db : Db)
      → ((a : Approval) → p a ≡ true → (f a).id ≡ a.id)
      → All (λ a. p a ≡ true → Advances a (f a)) db.approvals
      → Since rows db
      → Since rows (record db { approvals = update_where p f db.approvals })
  update-Since p f db k h e = record {
    history =
        Since-trans rows db.approvals _ e.history
          (Evolves-update_where Advances IsCoherent Advances-refl p f db.approvals h);
    distinct = DistinctOn-update_where (λ (a : Approval). a.id) p f db.approvals k e.distinct;
    one_pending = λ action target_key.
        le_trans
          (count_where-update_where-le (pending_for action target_key) p f db.approvals (
            All-map (λ a. p a ≡ true → Advances a (f a)) _ db.approvals
              (λ a k q. Advances-pending_for action target_key a (f a) (k q)) h))
          (e.one_pending action target_key);
  }

  pub update_approvals-Since :
      (p : Approval → Bool) (f : Approval → Approval)
      → ((a : Approval) → p a ≡ true → Advances a (f a))
      → Keeps (Since rows) (update_approvals p f)
  update_approvals-Since p f h = record {
    at = λ db e.
        update-Since p f db (λ a q. (h a q).id)
          (All-intro (λ a. p a ≡ true → Advances a (f a)) db.approvals h) e;
  }

  append-Since :
      (a : Approval) (db : Db)
      → IsCoherent a
      → find_row (has_id a.id) db.approvals ≡ none
      → is_pending a.status && is_some (find_row (pending_for a.action a.target_key) db.approvals)
        ≡ false
      → Since rows db
      → Since rows (record db { approvals = db.approvals ++ a ∷ [] })
  append-Since a db h new alone e = record {
    history =
        Since-trans rows db.approvals _ e.history
          (Evolves-append Advances IsCoherent Advances-refl db.approvals (a ∷ []) (h, tt));
    distinct =
        DistinctOn-append (λ (a : Approval). a.id) (has_id a.id) db.approvals a
          (λ y ne. ground (arith, ne)) new e.distinct;
    one_pending = λ action target_key.
        one_pending_append action target_key a db.approvals (e.one_pending action target_key) alone;
  }

  pub insert_approval-Since : (a : Approval) → IsCoherent a → Keeps (Since rows) (insert_approval a)
  unfolding insert_approval
  insert_approval-Since a h = record {
    at = λ db e. elim (Option-cases (find_row (has_id a.id) db.approvals)) [
      | inl new ↦ ground (arith, new, append-Since a db h new)
      | inr (b, old) ↦ rw old tt
    ];
  }

  pub event-Since :
      (now : Time) (d : EventDetail) (a e : Option Text) → Keeps (Since rows) (event now d a e)
  unfolding event
  event-Since now d a e = record {
    at = λ db h. record { history = h.history; distinct = h.distinct; one_pending = h.one_pending };
  }

pub pending-Advances-decide :
    (s : ApprovalStatus) (by : Text) (now : Time) (a : Approval)
    → is_decided s ≡ true
    → is_pending a.status ≡ true
    → Advances a (decide s by now a)
pending-Advances-decide s by now a d h = ground arith

pub pending-Advances-expire : (a : Approval) → is_pending a.status ≡ true → Advances a (expire a)
pending-Advances-expire a h = ground arith

pub stale-Advances : (as_of : Time) (a : Approval) → stale as_of a ≡ true → Advances a (expire a)
stale-Advances as_of a h = pending-Advances-expire a (ground arith)

new_approval-IsCoherent :
    (now : Time) (fresh : Text) (p : Proposal) → IsCoherent (new_approval now fresh p)
new_approval-IsCoherent now fresh p = ground arith

module _ (rows : List Approval) where
  pub expire_stale-Since : (now as_of : Time) → Keeps (Since rows) (expire_stale now as_of)
  unfolding expire_stale
  expire_stale-Since now as_of = record {
    at = λ db h.
        let e = (update_approvals-Since rows (stale as_of) expire (stale-Advances as_of)).at db h in
        record { history = e.history; distinct = e.distinct; one_pending = e.one_pending };
  }

  source_guard-Since : (i s : Option Text) → Keeps (Since rows) (source_guard i s)
  unfolding source_guard
  source_guard-Since (some i) (some s) = record { at = λ db h. ground arith }
  source_guard-Since none s = record { at = λ db h. ground arith }
  source_guard-Since (some i) none = record { at = λ db h. ground arith }

  same_source-Since : (i s : Option Text) (a : Text) → Keeps (Since rows) (same_source i s a)
  unfolding same_source
  same_source-Since (some i) (some s) a = record { at = λ db h. ground arith }
  same_source-Since none s a = record { at = λ db h. ground arith }
  same_source-Since (some i) none a = record { at = λ db h. ground arith }

  link_incident-Since : (i s : Option Text) (a : Text) → Keeps (Since rows) (link_incident i s a)
  unfolding link_incident
  link_incident-Since (some i) (some s) a = record { at = λ db h. ground arith }
  link_incident-Since none s a = record { at = λ db h. ground arith }
  link_incident-Since (some i) none a = record { at = λ db h. ground arith }

  reuse_or_create-Since :
      (now : Time) (fresh : Text) (p : Proposal) (found : Option Approval)
      → Keeps (Since rows) (reuse_or_create now fresh p found)
  unfolding reuse_or_create
  reuse_or_create-Since now fresh p (some a) = search (keeps_rules, same_source-Since)
  reuse_or_create-Since now fresh p none = search (
    keeps_rules,
    insert_approval-Since rows,
    event-Since rows,
    link_incident-Since,
    new_approval-IsCoherent,
  )

  pub propose-Since :
      (now : Time) (fresh : Text) (p : Proposal) → Keeps (Since rows) (propose now fresh p)
  unfolding propose
  propose-Since now fresh p =
      search (keeps_rules, expire_stale-Since, source_guard-Since, reuse_or_create-Since) depth 9

  pub propose_runbook-Since :
      (now : Time) (fresh : Text) (p : Proposal) → Keeps (Since rows) (propose_runbook now fresh p)
  unfolding propose_runbook
  propose_runbook-Since now fresh p = search (keeps_rules, propose-Since)
