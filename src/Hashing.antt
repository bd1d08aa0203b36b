-- ===== src/Hashing.antt =====
-- What the program takes from `json` and `hashlib`, which are not part of the repository: the
-- canonical text of a payload (`json.dumps(p, sort_keys=True, default=str)`) and the hex digest
-- of a text.
use sky_claw_gravity.Prelude.{String}

pub record Hashing (Payload : Type 0) : Type 0 where
  pub dumps : Payload → String
  pub sha256_hex : String → String
