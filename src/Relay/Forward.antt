-- ===== src/Relay/Forward.antt =====
-- The life of one record: what every change to it keeps, and in which direction it moves it.
use transeuroogs_kms.Common.{
  ℕ, ◌≡◌, Bool, true, false, ◌⊎◌, inl, inr, [], Text, Bool-cases, if_split, nat_eq, length, arith,
  if◌then◌else◌,
}
use transeuroogs_kms.Core.Id.{KeyId}
use transeuroogs_kms.Etsi020.{AckStatus, relayed, status_eq}
use transeuroogs_kms.Relay.{Rec}
use transeuroogs_kms.Relay.Voiding.{withdraw, start_void}
use transeuroogs_kms.Relay.Serve.{hold, wipe, wipe_reserved}
use transeuroogs_kms.Relay.Accept.{due, lapse}
use transeuroogs_kms.Relay.Acks.{ends_void, void_answer, hand_on, report_record}
use transeuroogs_kms.Relay.Outbox.{put_off, pin}

-- A record that is withdrawn or delivered holds no material, and a withdrawn one is not ready.
pub record Kept (r : Rec) : Type 0 where
  pub withdrawn_wiped : r.voiding ≡ true → r.material ≡ []
  pub withdrawn_unready : r.voiding ≡ true → r.ready ≡ false
  pub delivered_wiped : r.delivered ≡ true → r.material ≡ []

-- What never changes, what never comes back, and that no material is ever written.
pub record Forward (r r' : Rec) : Type 0 where
  pub same_pair : r'.pair ≡ r.pair
  pub same_role : r'.role ≡ r.role
  pub same_sender : r'.sender ≡ r.sender
  pub same_digest : r'.digest ≡ r.digest
  pub same_expires : r'.expires ≡ r.expires
  pub stays_sent : r.sent ≡ true → r'.sent ≡ true
  pub stays_delivered : r.delivered ≡ true → r'.delivered ≡ true
  pub stays_withdrawn : r.voiding ≡ true → r'.voiding ≡ true
  pub no_new_material : (r'.material ≡ r.material) ⊎ (r'.material ≡ [])

pub Forward-refl : (r : Rec) → Forward r r
Forward-refl r = ground arith

pub Forward-trans : (r s t : Rec) → Forward r s → Forward s t → Forward r t
Forward-trans r s t f g = ground arith

-- A change to a record that does both.
abbrev pub Fair : (Rec → Rec) → Type 0
Fair f = (r : Rec) → Kept r → Kept (f r) × Forward r (f r)

pub Fair-compose : (f g : Rec → Rec) → Fair f → Fair g → Fair (λ r. g (f r))
Fair-compose f g hf hg r k =
    ((hg (f r) (hf r k).0).0, Forward-trans r (f r) (g (f r)) (hf r k).1 (hg (f r) (hf r k).0).1)

-- A record and what a change may make of it.
abbrev pub Becomes : Rec → Rec → Type 0
Becomes r r' = Kept r' × Forward r r'

pub if-Fair :
    (t : Rec → Bool) (f g : Rec → Rec) → Fair f → Fair g → Fair (λ r. if t r then f r else g r)
if-Fair t f g hf hg r k = if_split (Becomes r) (t r) (f r) (g r) (λ _. hf r k) (λ _. hg r k)

pub same-Fair : Fair (λ r. r)
same-Fair r k = (k, Forward-refl r)

pub hold-Fair : (token : KeyId) → Fair (hold token)
unfolding hold
hold-Fair token r k = (ground arith, ground arith)

pub wipe-Fair : Fair wipe
unfolding wipe
wipe-Fair r k = (ground arith, ground arith)

pub wipe_reserved-Fair : Fair wipe_reserved
unfolding wipe_reserved
wipe_reserved-Fair r k = (ground arith, ground arith)

pub put_off-Fair : (again : ℕ) → Fair (put_off again)
unfolding put_off
put_off-Fair again r k = (ground arith, ground arith)

pub pin-Fair : (peer : Text) (again : ℕ) → Fair (pin peer again)
unfolding pin
pin-Fair peer again r k = (ground arith, ground arith)

pub start_void-Fair : (peer : Text) → Fair (start_void peer)
unfolding start_void withdraw
start_void-Fair peer r k = elim (Bool-cases r.voiding) [
  | inl before ↦ rw before (elim (Bool-cases (nat_eq (length peer) 0)) [
    | inl nobody ↦ (ground arith, ground arith)
    | inr somebody ↦ (ground arith, ground arith)
  ])
  | inr fresh ↦ rw fresh (elim (Bool-cases (nat_eq (length peer) 0)) [
    | inl nobody ↦ (ground arith, ground arith)
    | inr somebody ↦ (ground arith, ground arith)
  ])
]

pub lapse-Fair : (now : ℕ) (peer : Text) → Fair (lapse now peer)
unfolding lapse
lapse-Fair now peer = if-Fair (due now) (start_void peer) (λ r. r) (start_void-Fair peer) same-Fair

void_answer-Fair : (peer : Text) (status : AckStatus) → Fair (void_answer peer status)
unfolding void_answer
void_answer-Fair peer status r k = (ground arith, ground arith)

hand_on-Kept : (r : Rec) → r.voiding ≡ false → Kept r → Kept (hand_on r)
unfolding hand_on
hand_on-Kept r current k = ground arith

hand_on-Forward : (r : Rec) → Forward r (hand_on r)
unfolding hand_on
hand_on-Forward r = ground arith

pub report_record-Fair : (peer : Text) (status : AckStatus) → Fair (report_record peer status)
unfolding report_record
report_record-Fair peer status r k =
    if_split (Becomes r) r.voiding _ _
      (λ _.
        if_split (Becomes r) (ends_void status) _ _ (λ _. void_answer-Fair peer status r k)
          (λ _. same-Fair r k))
      (λ current.
        if_split (Becomes r) (status_eq status relayed) _ _
          (λ _. (hand_on-Kept r current k, hand_on-Forward r)) (λ _. start_void-Fair [] r k))
