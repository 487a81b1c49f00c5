-- ===== src/FormationRepo/Publishing.antt =====
-- formation.go, publish, expandFormation and sendUpdatedSince: what the subscribers are sent. The
-- repositories of applications, releases and artifacts are a record of reads.
pub mod Sent
use flynn_controller.Prelude.{Bool, true, false, Option, none, some, List, [], ◌∷◌, Text, ℕ}
use flynn_controller.Types.{App, Release, Artifact, Formation, ExpandedFormation}
use flynn_controller.Sql.{Sql, Result, ok, not_found, failure}
use flynn_controller.FormationRepo.{Row, Statements, scan_formation, get}

pub record Lookups (W : Type 0) : Type 0 where
  pub app : Text → W → Result App × W
  pub release : Text → W → Result Release × W
  pub artifact : Text → W → Result Artifact × W

abbrev pub expanded : App → Release → Artifact → Formation → ExpandedFormation
expanded app release artifact f = record {
  app = some app;
  release = some release;
  artifact = some artifact;
  processes = f.processes;
}

-- &ct.ExpandedFormation{}
abbrev pub sentinel : ExpandedFormation
sentinel = record { app = none; release = none; artifact = none; processes = [] }

-- the value of a call without an error
unfoldable pub value : {A : Type 0} → Result A → Option A
value (ok a) = some a
value not_found = none
value failure = none

-- the event of a formation that is not there any more
abbrev pub deleted_formation : Text → Text → Formation
deleted_formation app_id release_id = record {
  app_id = app_id;
  release_id = release_id;
  processes = [];
  created_at = none;
  updated_at = none;
}

module _ {W : Type 0} (lookups : Lookups W) where
  unfoldable pub artifact_read :
      Formation → App → Release → Result Artifact × W → Option ExpandedFormation × W
  artifact_read f app release (ok artifact, w) = (some (expanded app release artifact f), w)
  artifact_read f app release (not_found, w) = (none, w)
  artifact_read f app release (failure, w) = (none, w)

  unfoldable pub release_read : Formation → App → Result Release × W → Option ExpandedFormation × W
  unfolding artifact_read
  release_read f app (ok release, w) =
      artifact_read f app release (lookups.artifact release.artifact_id w)
  release_read f app (not_found, w) = (none, w)
  release_read f app (failure, w) = (none, w)

  unfoldable pub app_read : Formation → Result App × W → Option ExpandedFormation × W
  unfolding release_read
  app_read f (ok app, w) = release_read f app (lookups.release f.release_id w)
  app_read f (not_found, w) = (none, w)
  app_read f (failure, w) = (none, w)

  -- expandFormation; `none` is an error
  unfoldable pub expand_formation : Formation → W → Option ExpandedFormation × W
  unfolding app_read
  expand_formation f w = app_read f (lookups.app f.app_id w)

  -- what follows the read in publish
  unfoldable pub publish_read : Text → Text → Result Formation × W → Option ExpandedFormation × W
  unfolding expand_formation
  publish_read app_id release_id (ok f, w) = expand_formation f w
  publish_read app_id release_id (not_found, w) =
      expand_formation (deleted_formation app_id release_id) w
  publish_read app_id release_id (failure, w) = (none, w)

  -- publish: what each subscription is sent, or nothing
  unfoldable pub publish : Statements W → Text → Text → W → Option ExpandedFormation × W
  unfolding publish_read get
  publish db app_id release_id w = publish_read app_id release_id (get db app_id release_id w)

  -- The loop of sendUpdatedSince: what is sent, and true where an error ends it early.
  unfoldable pub send_rows : List (Sql Row) → W → List ExpandedFormation × Bool × W
  unfolding scan_formation value expand_formation
  send_rows [] w = ([], false, w)
  send_rows (r ∷ rows) w = elim (value (scan_formation r)) [
    | none ↦ ([], true, w)
    | some f ↦
        let (sent, w1) = expand_formation f w in
        elim sent [
          | none ↦ ([], true, w1)
          | some e ↦ let (later, stopped, w2) = send_rows rows w1 in (e ∷ later, stopped, w2)
        ]
  ]
