-- ===== src/FormationRepo/Publishing/Sent.antt =====
-- What publish sends after the repository stored or removed a formation.
use flynn_controller.Prelude.{◌≡◌, ◌∙◌, ap, sym, some, Option, [], Text, ℤ, All, false, subst}
use flynn_controller.Prelude.Map.{Map}
use flynn_controller.Types.{App, Release, Artifact, Formation, ExpandedFormation}
use flynn_controller.Decimal.RoundTrip.{IsInt}
use flynn_controller.Sql.{ok, clean_uuid}
use flynn_controller.FormationRepo.{Statements, add, remove}
use flynn_controller.FormationRepo.Processes.{positive}
use flynn_controller.FormationRepo.Storing.{IsTable, add-get, remove-get}
use flynn_controller.FormationRepo.Publishing.{
  Lookups, expanded, deleted_formation, app_read, release_read, artifact_read, expand_formation,
  publish_read, publish,
}

abbrev shown :
    {W : Type 0} → App → Release → Artifact → Map Text ℤ → W → Option ExpandedFormation × W
shown app release artifact processes w = (
  some (record {
    app = some app;
    release = some release;
    artifact = some artifact;
    processes = processes;
  }),
  w,
)

module _ {W : Type 0} (lookups : Lookups W) where
  -- The three reads for a formation of these identifiers answer, and change nothing.
  abbrev pub Finds : Text → Text → App → Release → Artifact → W → Type 0
  Finds a r app release artifact w =
      (lookups.app a w ≡ (ok app, w))
      × (lookups.release r w ≡ (ok release, w))
      × (lookups.artifact release.artifact_id w ≡ (ok artifact, w))

  expand_formation_finds :
      (f : Formation) (app : App) (release : Release) (artifact : Artifact) (w : W)
      → Finds f.app_id f.release_id app release artifact w
      → expand_formation lookups f w ≡ (some (expanded app release artifact f), w)
  unfolding expand_formation app_read release_read artifact_read
  expand_formation_finds f app release artifact w (fa, fr, fi) =
      ap (app_read lookups f) fa
      ∙ ap (release_read lookups f app) fr
      ∙ ap (artifact_read lookups f app release) fi

  module _ (db : Statements W) where
    -- Over a table that keeps what is written, when the application, the release and the artifact
    -- are found, publish sends after an addition the counts that were added and are positive, which
    -- must fit Go's int.
    pub publish-add :
        (f g : Formation) (app : App) (release : Release) (artifact : Artifact) (w after : W)
        → IsTable db
        → All (λ (e : Text × ℤ). IsInt e.1) f.processes
        → add db f w ≡ (ok g, after)
        → Finds (clean_uuid f.app_id) (clean_uuid f.release_id) app release artifact after
        → publish lookups db f.app_id f.release_id after ≡ (
          some (record {
            app = some app;
            release = some release;
            artifact = some artifact;
            processes = positive f.processes;
          }),
          after,
        )
    unfolding publish publish_read
    publish-add f g app release artifact w after table fits e finds =
        let (found, read, (ida, idr), processes, created, updated) =
          add-get db table f g w after fits e in
        let known =
          subst (λ a. Finds a found.release_id app release artifact after) (sym ida)
            (subst (λ r. Finds (clean_uuid f.app_id) r app release artifact after) (sym idr)
              finds) in
        ap (publish_read lookups f.app_id f.release_id) read
        ∙ expand_formation_finds found app release artifact after known
        ∙ ap (λ (p : Map Text ℤ). shown app release artifact p after) processes

    -- Over a table that keeps what is written, when the application, the release and the artifact
    -- are found, publish sends after a removal without an error the formation without any process.
    pub publish-remove :
        (a r : Text) (app : App) (release : Release) (artifact : Artifact) (w after : W)
        → IsTable db
        → remove db a r w ≡ (false, after)
        → Finds a r app release artifact after
        → publish lookups db a r after ≡ (
          some (record {
            app = some app;
            release = some release;
            artifact = some artifact;
            processes = [];
          }),
          after,
        )
    unfolding publish publish_read
    publish-remove a r app release artifact w after table e finds =
        ap (publish_read lookups a r) (remove-get db table a r w after e)
        ∙ expand_formation_finds (deleted_formation a r) app release artifact after finds
