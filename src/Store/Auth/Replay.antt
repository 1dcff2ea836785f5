-- ===== src/Store/Auth/Replay.antt =====
-- A TOTP step is accepted once, and a revocation reaches the devices of its operator alone.
use planet_express.Prelude.{
  ℕ, ◌+◌, ◌≤◌, ◌≡◌, refl, inl, inr, Bool, true, false, ◌&&◌, Option, none, some, List, [], ◌∷◌,
  arith, ltb, ◌==◌, if◌then◌else◌, Bool-cases, eq-of-==, ==_refl, find_row,
}
use planet_express.Store.Rows.{Text, Time, TotpStep, DeviceEpoch, Db}
use planet_express.Store.Tx.{write, ok}
use planet_express.Store.Auth.{
  advance_totp, consume_totp_step, device_epoch, revoke_devices, bump_epoch,
}

-- The last step that was accepted from an operator.
abbrev pub last : Text → List TotpStep → Option ℕ
last operator [] = none
last operator (t ∷ rest) = if t.operator == operator then some t.last_step else last operator rest

abbrev pub is_later : Option ℕ → ℕ → Bool
is_later none u = true
is_later (some s) u = ltb s u

accepted_if_later :
    (operator : Text) (u : ℕ) (rows : List TotpStep)
    → (advance_totp operator u rows).0 ≡ is_later (last operator rows) u
unfolding advance_totp
accepted_if_later operator u [] = refl
accepted_if_later operator u (t ∷ rows) = ground (arith, accepted_if_later operator u rows)

last-advance_totp :
    (k operator : Text) (u : ℕ) (rows : List TotpStep)
    → last k (advance_totp operator u rows).1
      ≡ (if k == operator && is_later (last operator rows) u then some u else last k rows)
unfolding advance_totp
last-advance_totp k operator u [] = ground arith
last-advance_totp k operator u (t ∷ rows) = ground (arith, last-advance_totp k operator u rows)

abbrev AtLeast : ℕ → Option ℕ → Type 0
AtLeast s none = ⊥
AtLeast s (some t) = s ≤ t

-- One attempt to use a step after the other.
unfoldable pub totp_steps : List (Text × ℕ) → Db → Db
totp_steps [] db = db
totp_steps ((o, u) ∷ calls) db = totp_steps calls (write (consume_totp_step o u) db).1

not_later : (s u : ℕ) (o : Option ℕ) → u ≤ s → AtLeast s o → is_later o u ≡ false
not_later s u none le h = absurd h
not_later s u (some t) le h = ground arith

later-AtLeast :
    (s u : ℕ) (o : Option ℕ) → AtLeast s o → AtLeast s (if is_later o u then some u else o)
later-AtLeast s u none h = absurd h
later-AtLeast s u (some t) h = ground arith

step-AtLeast :
    (k : Text) (s : ℕ) (o : Text) (u : ℕ) (rows : List TotpStep)
    → AtLeast s (last k rows)
    → AtLeast s (if k == o && is_later (last o rows) u then some u else last k rows)
step-AtLeast k s o u rows h = elim (Bool-cases (k == o)) [
  | inl e ↦ rw (← eq-of-== k o e, ==_refl k) (later-AtLeast s u (last k rows) h)
  | inr e ↦ rw e h
]

consume-AtLeast :
    (operator : Text) (s : ℕ) (o : Text) (u : ℕ) (db : Db)
    → AtLeast s (last operator db.auth_totp_steps)
    → AtLeast s (last operator (write (consume_totp_step o u) db).1.auth_totp_steps)
unfolding write consume_totp_step
consume-AtLeast operator s o u db h =
    rw (last-advance_totp operator o u db.auth_totp_steps)
      (step-AtLeast operator s o u db.auth_totp_steps h)

totp_steps-AtLeast :
    (operator : Text) (s : ℕ) (calls : List (Text × ℕ)) (db : Db)
    → AtLeast s (last operator db.auth_totp_steps)
    → AtLeast s (last operator (totp_steps calls db).auth_totp_steps)
unfolding totp_steps
totp_steps-AtLeast operator s [] db h = h
totp_steps-AtLeast operator s ((o, u) ∷ calls) db h =
    totp_steps-AtLeast operator s calls (write (consume_totp_step o u) db).1
      (consume-AtLeast operator s o u db h)

accepted-AtLeast :
    (operator : Text) (s : ℕ) (db : Db)
    → (write (consume_totp_step operator s) db).0 ≡ ok true
    → AtLeast s (last operator (write (consume_totp_step operator s) db).1.auth_totp_steps)
unfolding write consume_totp_step
accepted-AtLeast operator s db h =
    rw (last-advance_totp operator operator s db.auth_totp_steps)
      (ground (arith, ==_refl operator, accepted_if_later operator s db.auth_totp_steps))

refused :
    (operator : Text) (s u : ℕ) (db : Db)
    → u ≤ s
    → AtLeast s (last operator db.auth_totp_steps)
    → (write (consume_totp_step operator u) db).0 ≡ ok false
unfolding write consume_totp_step
refused operator s u db le h = ground (
  arith,
  accepted_if_later operator u db.auth_totp_steps,
  not_later s u (last operator db.auth_totp_steps) le h,
)

-- Once a TOTP step of an operator was accepted, neither it nor an earlier one is accepted from that
-- operator again, whatever steps of whatever operators are tried in between.
pub totp_never_replayed :
    (operator : Text) (s u : ℕ) (calls : List (Text × ℕ)) (db : Db)
    → (write (consume_totp_step operator s) db).0 ≡ ok true
    → u ≤ s
    → (write
        (consume_totp_step operator u)
        (totp_steps calls (write (consume_totp_step operator s) db).1)).0
      ≡ ok false
totp_never_replayed operator s u calls db h le =
    refused operator s u _ le
      (totp_steps-AtLeast operator s calls _ (accepted-AtLeast operator s db h))

epoch_of : (operator : Text) → List DeviceEpoch → ℕ
epoch_of operator rows = elim (find_row (λ (d : DeviceEpoch). d.operator == operator) rows) [
  | none ↦ 0
  | some d ↦ d.epoch
]

epoch_of-bump :
    (k operator : Text) (rows : List DeviceEpoch)
    → epoch_of k (bump_epoch operator rows)
      ≡ (if k == operator then epoch_of k rows + 1 else epoch_of k rows)
unfolding epoch_of
epoch_of-bump k operator [] = ground arith
epoch_of-bump k operator (d ∷ rows) = ground (arith, epoch_of-bump k operator rows)

-- Revoking the devices of an operator raises its epoch by one, so that a device which holds the
-- former epoch is not of the present one, and leaves the epochs of all other operators alone. The
-- result is the new epoch.
pub revoke_devices_exactly :
    (now : Time) (operator : Text) (db : Db)
    → ((write (revoke_devices now operator) db).0 ≡ ok (device_epoch operator db + 1))
      × ((k : Text)
          → device_epoch k (write (revoke_devices now operator) db).1
            ≡ (if k == operator then device_epoch k db + 1 else device_epoch k db))
unfolding revoke_devices write epoch_of
revoke_devices_exactly now operator db = (
  ground (arith, epoch_of-bump operator operator db.auth_device_epochs, ==_refl operator),
  λ k. epoch_of-bump k operator db.auth_device_epochs,
)
