-- ===== src/Nodes/Databases.antt =====
-- nodes.py: the nodes of SQL and vector databases.
use comfyui_runpod_agentic_n.Base.{
  ℕ, String, ◌<>◌, Bool, true, false, not, Option, none, some, List, [], ◌∷◌, if◌then◌else◌, negsuc,
  ◌==◌,
}
use comfyui_runpod_agentic_n.Base.Text.{strip}
use comfyui_runpod_agentic_n.Base.Result.{Result, ok}
use comfyui_runpod_agentic_n.Specs.{
  Materialization, FailurePolicy, SecretRef, SecretProvider, Protocol, RuntimeCommand,
  NetworkStorageSpec, SqlEngine, SqlDatabaseSpec, VectorEngine, VectorDatabaseSpec,
}
use comfyui_runpod_agentic_n.Contracts.{secret_placeholder}
use comfyui_runpod_agentic_n.Nodes.{Scripts, norm, meta_of, invalid, port_of, stripped_or}
use comfyui_runpod_agentic_n.Nodes.Services.{setup_command, contract_of, listed, secret_for}

abbrev pub sql_text : SqlEngine → String
sql_text SqlEngine.postgres = "postgres"
sql_text SqlEngine.mysql = "mysql"
sql_text SqlEngine.sqlite = "sqlite"

-- `norm(engine)`, if it is one of the two engines of a remote database.
unfoldable pub remote_engine : String → Option SqlEngine
unfolding norm
remote_engine engine =
    if norm engine == "postgres"
    then some SqlEngine.postgres
    else if norm engine == "mysql"
    then some SqlEngine.mysql
    else none

abbrev client_command : Scripts → SqlEngine → Bool → List RuntimeCommand
client_command scripts engine install_python =
    setup_command (scripts.database_client_setup engine install_python) (negsuc 20999)
      FailurePolicy.fail ("database-client:" <> sql_text engine)
    ∷ []

abbrev url_secret : String → SecretRef
url_secret name = record {
  name = stripped_or name "DATABASE_URL";
  env_var = "DATABASE_URL";
  provider = SecretProvider.server_env;
}

-- A database that only the environment tells of.
unfoldable pub sql_env :
    Scripts → SqlEngine → String → String → String → String → Bool → Option String → SqlDatabaseSpec
unfolding strip
sql_env scripts engine display database_name username url_name install_python node_id = record {
  engine = engine;
  materialization = Materialization.env_only;
  database_name = database_name;
  username = some username;
  password_secret = some (url_secret url_name);
  runtime_contract =
      contract_of
        (("DATABASE_KIND", sql_text engine)
          ∷ ("DATABASE_NAME", database_name)
          ∷ ("DATABASE_USER", username)
          ∷ [])
        (url_secret url_name ∷ []) [] scripts.database_skill_files
        (client_command scripts engine install_python);
  template_key = none;
  network_storage = none;
  meta = meta_of node_id (display <> " Env");
}

abbrev sql_scheme : SqlEngine → String
sql_scheme SqlEngine.postgres = "postgresql"
sql_scheme _ = "mysql"

abbrev sql_port : SqlEngine → ℕ
sql_port SqlEngine.postgres = 5432
sql_port _ = 3306

abbrev sql_port_text : SqlEngine → String
sql_port_text SqlEngine.postgres = "5432"
sql_port_text _ = "3306"

abbrev password_value : Option SecretRef → String
password_value none = "app"
password_value (some secret) = secret_placeholder secret

-- A database in a pod of its own.
unfoldable pub sql_pod :
    Scripts
    → SqlEngine
    → String
    → String
    → String
    → String
    → Bool
    → Option NetworkStorageSpec
    → Option String
    → SqlDatabaseSpec
unfolding secret_placeholder
sql_pod scripts engine display database_name username password_name install_python network_storage
      node_id =
    let secret = secret_for password_name "DATABASE_PASSWORD" in
    let kind = sql_text engine in
    record {
      engine = engine;
      materialization = Materialization.own_pod;
      database_name = database_name;
      username = some username;
      password_secret = secret;
      runtime_contract =
          contract_of
            (("DATABASE_KIND", kind)
              ∷ (
                "DATABASE_URL",
                sql_scheme engine
                    <> ("://"
                        <> (username
                            <> (":"
                                <> (password_value secret
                                    <> ("@crag://sql/"
                                        <> (kind <> ("/hostport/" <> database_name))))))),
              )
              ∷ ("DATABASE_HOST", "crag://sql/" <> (kind <> "/host"))
              ∷ ("DATABASE_PORT", sql_port_text engine)
              ∷ ("DATABASE_NAME", database_name)
              ∷ ("DATABASE_USER", username)
              ∷ ("DATABASE_PASSWORD", password_value secret)
              ∷ [])
            (listed secret) (port_of kind (sql_port engine) Protocol.tcp false ∷ [])
            scripts.database_skill_files (client_command scripts engine install_python);
      template_key = some ("rp-db-" <> kind);
      network_storage = network_storage;
      meta = meta_of node_id display;
    }

-- `RemoteSQLDatabaseNode.build`
unfoldable pub build_remote_sql :
    Scripts
    → String
    → String
    → String
    → String
    → String
    → String
    → Bool
    → Option NetworkStorageSpec
    → Option String
    → Result SqlDatabaseSpec
unfolding norm remote_engine sql_env sql_pod
build_remote_sql scripts engine mode database_name username password_name url_name install_python
      network_storage node_id =
    elim (remote_engine engine) [
      | none ↦
          invalid
            "Remote SQL Database supports Postgres and MySQL. Use Local SQL Database for SQLite."
      | some kind ↦ ok (
          if norm mode == "env_only"
          then sql_env scripts kind engine database_name username url_name install_python node_id
          else sql_pod scripts kind engine database_name username password_name install_python
              network_storage node_id)
    ]

-- `LocalSQLDatabaseNode.build`
unfoldable pub build_local_sql :
    Scripts → String → String → String → Bool → Option String → Result SqlDatabaseSpec
unfolding norm strip
build_local_sql scripts engine database_name database_path install_python node_id =
    let path = stripped_or database_path "/workspace/db/app.sqlite" in
    if not (norm engine == "sqlite")
    then invalid "Local SQL Database only supports SQLite."
    else ok (record {
      engine = SqlEngine.sqlite;
      materialization = Materialization.file_only;
      database_name = database_name;
      username = none;
      password_secret = none;
      runtime_contract =
          contract_of
            (("DATABASE_KIND", "sqlite")
              ∷ ("DATABASE_URL", "sqlite:///" <> path)
              ∷ ("DATABASE_PATH", path)
              ∷ ("DATABASE_NAME", database_name)
              ∷ [])
            [] [] scripts.database_skill_files
            (setup_command (scripts.local_sql_setup path database_name install_python)
                (negsuc 19999) FailurePolicy.fail "local_sql"
              ∷ []);
      template_key = none;
      network_storage = none;
      meta = meta_of node_id "SQLite";
    })

abbrev pub vector_text : VectorEngine → String
vector_text VectorEngine.chroma = "chroma"
vector_text VectorEngine.qdrant = "qdrant"

abbrev vector_port : VectorEngine → ℕ
vector_port VectorEngine.qdrant = 6333
vector_port VectorEngine.chroma = 8000

abbrev is_chroma : VectorEngine → Bool
is_chroma VectorEngine.chroma = true
is_chroma VectorEngine.qdrant = false

unfoldable pub vector_embedded :
    Scripts → String → String → String → Bool → Option String → VectorDatabaseSpec
vector_embedded scripts display collection path install_python node_id = record {
  engine = VectorEngine.chroma;
  materialization = Materialization.file_only;
  collection_name = collection;
  persistence_path = path;
  runtime_contract =
      contract_of
        (("VECTOR_KIND", "chroma")
          ∷ ("VECTOR_MODE", "embedded")
          ∷ ("VECTOR_URL", "local://chroma")
          ∷ ("VECTOR_COLLECTION", collection)
          ∷ ("VECTOR_PERSISTENCE_PATH", path)
          ∷ [])
        [] [] scripts.database_skill_files
        (setup_command (scripts.embedded_chroma_setup path install_python) (negsuc 18999)
            FailurePolicy.fail "vector:chroma:embedded"
          ∷ []);
  template_key = none;
  network_storage = none;
  meta = meta_of node_id display;
}

unfoldable pub vector_pod :
    Scripts
    → VectorEngine
    → String
    → String
    → String
    → Option NetworkStorageSpec
    → Option String
    → VectorDatabaseSpec
vector_pod scripts engine display collection path network_storage node_id =
    let kind = vector_text engine in
    record {
      engine = engine;
      materialization = Materialization.own_pod;
      collection_name = collection;
      persistence_path = path;
      runtime_contract =
          contract_of
            (("VECTOR_KIND", kind)
              ∷ ("VECTOR_MODE", "remote")
              ∷ ("VECTOR_URL", "crag://vector/" <> kind)
              ∷ ("VECTOR_COLLECTION", collection)
              ∷ ("VECTOR_PERSISTENCE_PATH", path)
              ∷ [])
            [] (port_of kind (vector_port engine) Protocol.http true ∷ [])
            scripts.database_skill_files [];
      template_key = some ("rp-vector-" <> kind);
      network_storage = network_storage;
      meta = meta_of node_id display;
    }

-- `VectorDatabaseNode.build`, with the node's choice of engine and its label. A placement that is none of
-- the two is a collection name of an older workflow, whose collection name is then the path.
unfoldable pub build_vector :
    Scripts
    → VectorEngine
    → String
    → String
    → String
    → String
    → Bool
    → Option NetworkStorageSpec
    → Option String
    → Result VectorDatabaseSpec
unfolding norm vector_embedded vector_pod
build_vector scripts engine display placement collection path install_python network_storage
      node_id =
    if norm placement == "embedded"
    then if is_chroma engine
      then ok (vector_embedded scripts display collection path install_python node_id)
      else invalid "Only Chroma supports embedded vector database placement."
    else if norm placement == "own_pod"
    then ok (vector_pod scripts engine display collection path network_storage node_id)
    else ok (vector_pod scripts engine display placement collection network_storage node_id)
