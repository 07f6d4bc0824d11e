-- ===== src/Postgres/Fingerprint.antt =====
-- src/storage/postgres_idempotency_store.py, `build_semantic_fingerprint`.
pub mod Discrimination
use streaming_system_compass.Base.{ℕ, List, ◌∷◌, ◌++◌}
use streaming_system_compass.Base.Text.{codes}
use streaming_system_compass.Base.Result.{Result, ok, ◌>>=◌}
use streaming_system_compass.Failure.{Failure}
use streaming_system_compass.Money.{decimal, money_to_storage_string}
use streaming_system_compass.Postgres.Rows.{command_value}
use streaming_system_compass.Storage.Idempotency.{RequestSignature}

-- `FINGERPRINT_VERSION`
abbrev pub fingerprint_version : ℕ
fingerprint_version = 1

-- `"|".join([...])` of the four parts, the last of which is given
abbrev pub joined : RequestSignature → List ℕ → List ℕ
joined signature amount =
    codes "v1|"
    ++ (codes (command_value signature.command_type)
        ++ (b'|' ∷ (codes signature.order_id ++ (b'|' ∷ amount))))

unfoldable pub build_semantic_fingerprint : RequestSignature → Result Failure (List ℕ)
build_semantic_fingerprint signature = do
  amount ← money_to_storage_string (decimal signature.amount)
  ok (joined signature amount)
