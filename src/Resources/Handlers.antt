-- ===== src/Resources/Handlers.antt =====
-- controller.go: the handlers of resources, behind the middleware that looks up the provider or the
-- application. The server of a provider, found through discoverd, is an argument.
use flynn_controller.Prelude.{Option, none, some, List, [], Text, codes}
use flynn_controller.Prelude.Map.{Map}
use flynn_controller.Types.{App, Provider, Resource, ResourceReq}
use flynn_controller.Sql.{Result, ok, not_found, failure}
use flynn_controller.Http.{Response, json, header, answer}
use flynn_controller.Resources.{Statements, get, provider_list, app_list, add}

-- what the handlers use of the resource package
pub record Server (W S : Type 0) : Type 0 where
  -- resource.NewServerWithDiscoverd, of the provider's URL
  pub connect : Text → W → Option S × W
  -- Server.Provision: the identifier and the environment of what it made
  pub provision : S → Text → W → Option (Text × Map Text Text) × W
  pub close : S → W → W

abbrev pub config_of : Option Text → Text
config_of none = codes "{}"
config_of (some config) = config

module _ {W : Type 0} (db : Statements W) (uuid : W → Text × W) where
  unfoldable pub put_resource : Provider → Text → Resource → W → Response Resource × W
  unfolding add
  put_resource p id resource w =
      let (added, w1) = add db uuid (record resource { id = id; provider_id = p.id }) w in
      (answer added, w1)

  -- the resource that provisionResource adds
  abbrev pub provisioned : Provider → ResourceReq → Text × Map Text Text → Resource
  provisioned p req (external_id, env) = record {
    id = [];
    provider_id = p.id;
    external_id = external_id;
    env = env;
    apps = req.apps;
    created_at = none;
  }

  unfoldable pub provision_resource :
      {S : Type 0} → Server W S → S → Provider → ResourceReq → W → Response Resource × W
  unfolding add
  provision_resource server rs p req w =
      let (provided, w1) = server.provision rs (config_of req.config) w in
      elim provided [
        | none ↦ (json 500 none, w1)
        | some made ↦
            let (added, w2) = add db uuid (provisioned p req made) w1 in (answer added, w2)
      ]

  -- resourceServerMiddleware before provisionResource
  unfoldable pub with_resource_server :
      {S : Type 0} → Server W S → Provider → ResourceReq → W → Response Resource × W
  unfolding provision_resource
  with_resource_server server p req w =
      let (connected, w1) = server.connect p.url w in
      elim connected [
        | none ↦ (header 500, w1)
        | some rs ↦
            let (answered, w2) = provision_resource server rs p req w1 in
            (answered, server.close rs w2)
      ]

module _ {W : Type 0} (db : Statements W) where
  abbrev found_resource : Result Resource → Response Resource
  found_resource (ok resource) = json 200 (some resource)
  found_resource not_found = header 404
  found_resource failure = header 500

  -- getResourceMiddleware before getResource
  unfoldable pub get_resource : Text → W → Response Resource × W
  unfolding get
  get_resource id w = let (found, w1) = get db id w in (found_resource found, w1)

  unfoldable pub get_provider_resources : Provider → W → Response (List Resource) × W
  unfolding provider_list
  get_provider_resources p w = let (found, w1) = provider_list db p.id w in (answer found, w1)

  unfoldable pub get_app_resources : App → W → Response (List Resource) × W
  unfolding app_list
  get_app_resources app w = let (found, w1) = app_list db app.id w in (answer found, w1)
