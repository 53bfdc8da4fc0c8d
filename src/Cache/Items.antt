-- ===== src/Cache/Items.antt =====
-- backend/internal/cache/cache.go: Item and its two methods.
use shc.Base.{ℕ, ◌-◌, String, Bool, false, leb, ltb, ◌==◌, if◌then◌else◌}
use shc.Base.Int.{ℤ, pos, negsuc}
use shc.Base.Words.{whole_seconds, saturated}

pub record Item : Type 0 where
  pub key : String
  pub value : String
  pub created_at : ℕ
  -- 0 means no TTL.
  pub expires_at : ℕ
  pub version : ℕ
  pub is_replica : Bool

unfoldable pub is_expired : Item → ℕ → Bool
is_expired i now = if i.expires_at == 0 then false else ltb i.expires_at now

-- -1 without a TTL; otherwise the whole seconds that are left, 0 from the deadline on.
unfoldable pub ttl_remaining : Item → ℕ → ℤ
unfolding whole_seconds
ttl_remaining i now =
    if i.expires_at == 0
    then negsuc 0
    else (if leb i.expires_at now
        then pos 0
        else pos (whole_seconds (saturated (i.expires_at - now))))
