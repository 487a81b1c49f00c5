-- ===== src/Tests/Releases.antt =====
-- ReleaseRepo over a table of rows, with documents that hold at most one variable of one letter.
use flynn_controller.Prelude.{
  ℕ, ◌≡◌, ◌∙◌, refl, ap, Option, none, some, [], ◌∷◌, Text, codes, text_eq, arith,
}
use flynn_controller.Prelude.Map
use flynn_controller.Prelude.Map.{Map, get-put_self}
use flynn_controller.Types.{Release, ProcessType}
use flynn_controller.Sql.{Sql, row, no_rows, ok, clean_uuid, is_simple}
use flynn_controller.Releases.{Document, Json, Row, Statements, add, get}
use flynn_controller.Releases.Storing.{Decodes, Keeps, add-get_release}

abbrev encode_fields : Text → Text → Map Text Text → Map Text ProcessType → Option ℕ → Option Text
encode_fields [] [] [] [] none = some []
encode_fields [] [] ((c ∷ [], v) ∷ []) [] none = some (c ∷ v)
encode_fields i a e p t = none

abbrev document : Map Text Text → Document
document env = record { id = []; artifact = []; env = env; processes = []; created_at = none }

abbrev decode_text : Text → Option Document
decode_text [] = some (document [])
decode_text (c ∷ v) = some (document ((c ∷ [], v) ∷ []))

abbrev codec : Json
codec = record {
  encode = λ d. encode_fields d.id d.artifact d.env d.processes d.created_at;
  decode = decode_text;
}

abbrev fields : Text → Text → Map Text Text → Map Text ProcessType → Option ℕ → Document
fields i a e p t = record { id = i; artifact = a; env = e; processes = p; created_at = t }

decodes_fields :
    (i a : Text) (e : Map Text Text) (p : Map Text ProcessType) (t : Option ℕ) (text : Text)
    → encode_fields i a e p t ≡ some text
    → decode_text text ≡ some (fields i a e p t)
decodes_fields [] [] [] [] none text h = ground arith
decodes_fields [] [] ((c ∷ [], v) ∷ []) [] none text h = ground arith
decodes_fields i a e p t text h = ground arith

codec-Decodes : Decodes codec
codec-Decodes d text h = decodes_fields d.id d.artifact d.env d.processes d.created_at text h

abbrev World : Type 0
World = Map Text Row

abbrev found_row : Option Row → Sql Row
found_row none = no_rows
found_row (some r) = row r

abbrev new_row : Text → Text → Text → Row
new_row id artifact_id text = record {
  id = id;
  artifact_id = artifact_id;
  document = text;
  created_at = 7;
}

abbrev table : Statements World
table = record {
  insert =
      λ id artifact_id text w. (row 7, Map.put (clean_uuid id) (new_row id artifact_id text) w);
  select = λ id w. (found_row (Map.get id w), w);
  select_all = λ w. (none, w);
}

table-Keeps : Keeps table
table-Keeps id artifact_id text created w after lower artifact_lower h =
    let r = new_row id artifact_id text in
    let stored : after ≡ Map.put (clean_uuid id) r w = ground arith in
    (
      r,
      ap (λ (o : Option Row). (found_row o, after))
          (ap (Map.get (clean_uuid id)) stored ∙ get-put_self (clean_uuid id) r w),
      refl,
      refl,
      refl,
      ground arith,
    )

abbrev uuid : World → Text × World
uuid w = (codes "8-8", w)

abbrev release : Release
release = record {
  id = [];
  artifact_id = codes "c-1";
  env = (codes "A", codes "on") ∷ [];
  processes = [];
  created_at = none;
}

abbrev added : Release
added = record release { id = codes "88"; artifact_id = codes "c1"; created_at = some 7 }

abbrev after : World
after = (codes "88", new_row (codes "8-8") (codes "c-1") (codes "Aon")) ∷ []

stored : add codec table uuid release [] ≡ (some added, after)
unfolding add Map.put clean_uuid
stored = refl

add-get_release_example : get codec table (codes "88") after ≡ (ok added, after)
unfolding is_simple
add-get_release_example =
    add-get_release codec table uuid release added [] after codec-Decodes table-Keeps (λ v. refl)
      refl refl stored
