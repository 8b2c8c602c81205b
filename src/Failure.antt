-- ===== src/Failure.antt =====
-- Errors as values. The kind of an error is kept; the texts that `fmt.Errorf` puts before an
-- error are not.

pub data Error : Type 0 where
  -- The database engine failed: the disk, a lock, a closed connection.
  engine : Error
  -- A statement broke a UNIQUE or a PRIMARY KEY constraint.
  unique : Error
  -- A statement broke a FOREIGN KEY constraint.
  foreign_key : Error
  -- `json.Marshal` and `json.Unmarshal` failed.
  encode decode : Error
  -- A token or an API key could not be made, as `rand.Read` failed.
  random : Error

pub data Result {ℓ} (A : Type ℓ) : Type ℓ where
  ok : A → Result A
  err : Error → Result A
