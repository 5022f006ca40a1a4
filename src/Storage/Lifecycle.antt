-- ===== src/Storage/Lifecycle.antt =====
-- The life of one entry: what every operation keeps, and how far an entry can move.
use transeuroogs_kms.Common.{
  Bool-cases, ℕ, ◌≤◌, ◌≡◌, ◌≢◌, refl, ◌⊎◌, inl, inr, true, false, [], arith, length, ltb,
}
use transeuroogs_kms.Core.Id.{KeyId}
use transeuroogs_kms.Core.Key.{State, available, reserved, consumed, invalidated, expired, terminal}
use transeuroogs_kms.Storage.{Entry, expire, end_open, reserve_entry, consume_master, consume_slave}

-- An entry between two operations: a half holds its 32 bytes until its state is terminal and
-- nothing after, and the slave's half opens only when the master's is consumed.
pub record Sound (id : KeyId) (e : Entry) : Type 0 where
  pub named : e.id ≡ id
  pub master_wiped : terminal e.master_state ≡ true → e.master ≡ []
  pub slave_wiped : terminal e.slave_state ≡ true → e.slave ≡ []
  pub master_held : terminal e.master_state ≡ false → length e.master ≡ 32
  pub slave_held : terminal e.slave_state ≡ false → length e.slave ≡ 32
  pub slave_waits : terminal e.master_state ≡ false → e.slave_state ≡ reserved
  pub slave_opens : e.slave_state ≡ available → e.master_state ≡ consumed
  pub slave_last : e.slave_state ≡ consumed → e.master_state ≡ consumed

-- How far a half has come. The master's half goes from available by reserved to an end; the
-- slave's from reserved by available to an end.
abbrev pub master_rank : State → ℕ
master_rank available = 0
master_rank reserved = 1
master_rank _ = 2

abbrev pub slave_rank : State → ℕ
slave_rank reserved = 0
slave_rank available = 1
slave_rank _ = 2

-- What an operation may do to an entry.
pub record Evolves (e f : Entry) : Type 0 where
  pub id_kept : f.id ≡ e.id
  pub association_kept : f.association ≡ e.association
  pub source_kept : f.source ≡ e.source
  pub created_kept : f.created_at ≡ e.created_at
  pub expiry_kept : f.expires_at ≡ e.expires_at
  pub master_forward : master_rank e.master_state ≤ master_rank f.master_state
  pub slave_forward : slave_rank e.slave_state ≤ slave_rank f.slave_state
  pub master_final : terminal e.master_state ≡ true → f.master_state ≡ e.master_state
  pub slave_final : terminal e.slave_state ≡ true → f.slave_state ≡ e.slave_state
  pub master_data : (f.master ≡ e.master) ⊎ (f.master ≡ [])
  pub slave_data : (f.slave ≡ e.slave) ⊎ (f.slave ≡ [])

pub record Step (e f : Entry) : Type 0 where
  pub evolves : (id : KeyId) → Sound id e → Evolves e f
  pub sound : (id : KeyId) → Sound id e → Sound id f

pub Evolves-refl : (e : Entry) → Evolves e e
Evolves-refl e = ground arith

pub Evolves-trans : (d e f : Entry) → Evolves d e → Evolves e f → Evolves d f
Evolves-trans d e f h k = ground arith

pub Step-refl : (e : Entry) → Step e e
Step-refl e = record { evolves = λ id s. Evolves-refl e; sound = λ id s. s }

pub Step-trans : (d e f : Entry) → Step d e → Step e f → Step d f
Step-trans d e f h k = record {
  evolves = λ id s. Evolves-trans d e f (h.evolves id s) (k.evolves id (h.sound id s));
  sound = λ id s. k.sound id (h.sound id s);
}

end_open-Sound :
    (s : State) (id : KeyId) (e : Entry)
    → terminal s ≡ true
    → s ≢ consumed
    → Sound id e
    → Sound id (end_open s e)
unfolding end_open terminal
end_open-Sound s id e t n h = ground arith

end_open-Evolves : (s : State) (e : Entry) → terminal s ≡ true → Evolves e (end_open s e)
unfolding end_open terminal
end_open-Evolves s e t = ground arith

pub end_open-Step :
    (s : State) (e : Entry) → terminal s ≡ true → s ≢ consumed → Step e (end_open s e)
end_open-Step s e t n = record {
  evolves = λ id _. end_open-Evolves s e t;
  sound = λ id h. end_open-Sound s id e t n h;
}

expired-ne-consumed : expired ≢ consumed
expired-ne-consumed = grind arith

pub expire-Step : (now : ℕ) (e : Entry) → Step e (expire now e)
unfolding expire terminal
expire-Step now e = elim (Bool-cases (ltb now e.expires_at)) [
  | inl live ↦ rw (live, expire) (Step-refl e)
  | inr over ↦ rw (over, expire) (end_open-Step expired e refl expired-ne-consumed)
]

pub invalidate-Step : (now : ℕ) (e : Entry) → Step e (end_open invalidated (expire now e))
unfolding terminal
invalidate-Step now e =
    Step-trans e (expire now e) _ (expire-Step now e)
      (end_open-Step invalidated (expire now e) refl (grind arith))

pub reserve_entry-Step : (e : Entry) → e.master_state ≡ available → Step e (reserve_entry e)
unfolding reserve_entry terminal
reserve_entry-Step e h = record { evolves = λ id s. ground arith; sound = λ id s. ground arith }

pub consume_master-Step : (e : Entry) → e.master_state ≡ reserved → Step e (consume_master e)
unfolding consume_master terminal
consume_master-Step e h = record { evolves = λ id s. ground arith; sound = λ id s. ground arith }

pub consume_slave-Step : (e : Entry) → e.slave_state ≡ available → Step e (consume_slave e)
unfolding consume_slave terminal
consume_slave-Step e h = record { evolves = λ id s. ground arith; sound = λ id s. ground arith }
