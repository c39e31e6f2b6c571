-- ===== src/Provider/File.antt =====
-- pkg/provider/file/file.go: the services that a YAML file lists. The file system and the YAML parser
-- are parameters; the parser gives the nodes of the file in an order in which Go may go through them.
use bent.Provider.Updater.Rounds.{run_once_lem, IsStored}
use bent.Provider.Updater.Nodes.{transform-AllWellFormed, nodes_in, AllWellFormed}
use bent.Provider.Node.{Node}
use bent.Cache.Simple.Current.{IsCurrent}
use bent.Cache.Simple.Sound.{IsSound}
use bent.Provider.Updater.Returns.{transform_returns, AllProvidedReadable}
use bent.Cache.Simple.{World}
use bent.Cache.Resource.{Resource}
use bent.Provider.Listener.{Marshal}
use bent.Shared.{ℕ, String, ◌≡◌, Option, none, some, List, [], ◌∷◌, ◌++◌, ◌>>=◌}
use bent.Provider.Updater.{
  Orders, done, run_once, ProviderClusters, Provided, clusters_in, provider_error,
}

pub record FileProvider : Type 0 where
  pub path : String

-- `NewProvider` has no error.
unfoldable pub new_file_provider : String → FileProvider
new_file_provider path = record { path = path }

module _ (read_file : String → Option String) (unmarshal : String → Option ProviderClusters) where
  unfoldable pub read_config : String → Option ProviderClusters
  read_config path = do content ← read_file path; unmarshal content

  provided_by : Option ProviderClusters → Provided
  provided_by none = provider_error
  provided_by (some nodes) = clusters_in nodes nodes

  -- `GetClusters`: an error of the file and one of its text are both the provider's.
  unfoldable pub get_file_clusters : FileProvider → Provided
  unfolding provided_by
  get_file_clusters p = provided_by (read_config p.path)

  module _ (message_to_any : Marshal) (md5 : List (List ℕ) → String)
      (marshal : Resource → Option (List ℕ)) where
    -- A round of the updater on a file that can be read, and whose services have no annotations that
    -- spell a range of statuses, ends with the snapshots of the file's nodes in the cache; the world
    -- is sound and current before.
    pub run_once-get_file_clusters :
        (os : ℕ → Orders) (p : FileProvider) (nodes : ProviderClusters) (w : World)
        → read_config p.path ≡ some nodes
        → AllProvidedReadable nodes
        → IsSound w
        → IsCurrent w
        → (w' : World) × (ns : List Node) × (run_once message_to_any md5 marshal os
              (get_file_clusters p)
              w
            ≡ done w')
          × AllWellFormed (nodes_in nodes ++ "ingress" ∷ []) ns
          × IsStored md5 marshal os ns w w'
    unfolding get_file_clusters provided_by
    run_once-get_file_clusters os p nodes w read readable sound current =
        let (ns, made) = transform_returns message_to_any nodes nodes readable readable in
        let (w', ended, stored) =
          run_once_lem md5 marshal message_to_any os nodes nodes ns w sound current made in
        (w', ns, rw read ended, transform-AllWellFormed message_to_any nodes nodes ns made, stored)
