-- ===== src/Lab/Laws.antt =====
-- A delayed repository keeps what its repository promises, and opens at its moment.
use transeuroogs_kms.Common.{ℕ, Bool, true, false, List}
use transeuroogs_kms.Core.Errors.{Result}
use transeuroogs_kms.Core.Id.{KeyId}
use transeuroogs_kms.Core.Key.{Delivery}
use transeuroogs_kms.Core.Repository.{Repository, Once, Moves, Hands, Side, master_side, slave_side}
use transeuroogs_kms.Lab.{hidden, ready, delayed}

hidden-Moves :
    {S A : Type 0} (Good : S → Type 0) (Gone : Side → S → KeyId → Type 0) (open_now : Bool) (s : S)
    → (o : S × Result A) → Moves Good Gone s o.0
    → Moves Good Gone s (hidden open_now s o).0
unfolding hidden
hidden-Moves Good Gone true s o m = m
hidden-Moves Good Gone false s o m = record { good = λ g. g; gone = λ side id g x. x }

hidden-Hands :
    {S : Type 0} (Gone : Side → S → KeyId → Type 0) (side : Side) (open_now : Bool) (s : S)
    → (o : S × Result (List Delivery)) → Hands Gone side s o
    → Hands Gone side s (hidden open_now s o)
unfolding hidden
hidden-Hands Gone side true s o h = h
hidden-Hands Gone side false s o h = tt

pub delayed-Once :
    {T S : Type 0} (ready_at : ℕ) (clock : T → ℕ) (r : Repository T S)
    → Once r
    → Once (delayed ready_at clock r)
unfolding delayed
delayed-Once ready_at clock r p = record {
  Good = p.Good;
  Gone = p.Gone;
  reserving =
      λ a n t s. hidden-Moves p.Good p.Gone (ready ready_at clock t) s _ (p.reserving a n t s);
  consuming =
      λ a k t s. hidden-Moves p.Good p.Gone (ready ready_at clock t) s _ (p.consuming a k t s);
  consuming_peer = λ a ids t s.
      hidden-Moves p.Good p.Gone (ready ready_at clock t) s _ (p.consuming_peer a ids t s);
  counting = p.counting;
  to_master = λ a k t s g.
      hidden-Hands p.Gone master_side (ready ready_at clock t) s _ (p.to_master a k t s g);
  to_slave = λ a ids t s g.
      hidden-Hands p.Gone slave_side (ready ready_at clock t) s _ (p.to_slave a ids t s g);
}
