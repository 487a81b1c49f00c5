-- ===== src/Keys.antt =====
-- key.go: KeyRepo. What golang.org's ssh package, md5 and bytes.TrimSpace do is a parameter.
pub mod Storing
use flynn_controller.Prelude.{
  ℕ, Bool, true, false, Option, none, some, List, [], Text, text_eq, list_eqb, ◌==◌, if◌then◌else◌,
}
use flynn_controller.Types.{Key}
use flynn_controller.Ids.{hex}
use flynn_controller.Sql.{
  Sql, row, no_rows, unique_violation, bad_uuid, failed, fix_row_err, Result, ok, not_found,
  failure, row_of, Rows, list_of,
}

pub record Ssh (P : Type 0) : Type 0 where
  -- ssh.ParseAuthorizedKey, with the key and the comment
  pub parse : Text → Option (P × Text)
  -- PublicKey.Marshal
  pub marshal : P → List ℕ
  -- bytes.TrimSpace of ssh.MarshalAuthorizedKey
  pub authorized : P → Text
  -- md5.Sum
  pub md5 : List ℕ → List ℕ

pub record Row : Type 0 where
  pub fingerprint : Text
  pub key : Text
  pub comment : Text
  pub created_at : ℕ

pub record Statements (W : Type 0) : Type 0 where
  -- INSERT INTO keys (fingerprint, key, comment) ... RETURNING created_at
  pub insert : Text → Text → Text → W → Sql ℕ × W
  -- SELECT ... WHERE fingerprint AND deleted_at IS NULL
  pub select : Text → W → Sql Row × W
  -- UPDATE keys SET deleted_at = now() WHERE fingerprint AND deleted_at IS NULL; true is an error
  pub tombstone : Text → W → Bool × W
  pub select_all : W → Rows Row × W

unfoldable pub key_of_row : Row → Key
key_of_row r = record {
  id = r.fingerprint;
  key = r.key;
  comment = r.comment;
  created_at = some r.created_at;
}

-- The value beside an error is not used.
unfoldable pub scan_key : Sql Row → Result Key
unfolding key_of_row
scan_key (row r) = ok (key_of_row r)
scan_key no_rows = not_found
scan_key unique_violation = failure
scan_key bad_uuid = failure
scan_key failed = failure

-- fingerprintKey
unfoldable pub fingerprint_key : {P : Type 0} → Ssh P → List ℕ → Text
unfolding hex
fingerprint_key ssh key = hex (ssh.md5 key)

-- the key as it is stored
unfoldable pub parsed_key : {P : Type 0} → Ssh P → P → Text → Key
unfolding fingerprint_key
parsed_key ssh public comment = record {
  id = fingerprint_key ssh (ssh.marshal public);
  key = ssh.authorized public;
  comment = comment;
  created_at = none;
}

abbrev pub dated : Key → Option ℕ → Option Key
dated k none = none
dated k (some created) = some (record k { created_at = some created })

module _ {W : Type 0} (db : Statements W) where
  unfoldable pub insert_key : Key → W → Option Key × W
  unfolding row_of fix_row_err
  insert_key k w =
      let (inserted, w1) = db.insert k.id k.key k.comment w in
      (dated k (row_of (fix_row_err inserted)), w1)

  -- KeyRepo.Add, with the key as it leaves it
  unfoldable pub add : {P : Type 0} → Ssh P → Key → W → Option Key × W
  unfolding parsed_key insert_key list_eqb
  add ssh k w = if k.key == [] then (none, w) else elim (ssh.parse k.key) [
    | none ↦ (none, w)
    | some (public, comment) ↦ insert_key (parsed_key ssh public comment) w
  ]

  unfoldable pub get : Text → W → Result Key × W
  unfolding scan_key fix_row_err
  get id w = let (found, w1) = db.select id w in (scan_key (fix_row_err found), w1)

  -- a true flag is an error
  unfoldable pub remove : Text → W → Bool × W
  remove id w = db.tombstone id w

  unfoldable pub list : W → Option (List Key) × W
  unfolding list_of scan_key
  list w = let (rows, w1) = db.select_all w in (list_of scan_key rows, w1)
