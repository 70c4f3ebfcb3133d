-- ===== src/Lib.antt =====
-- localcloud-cli: the state, the configuration, the host ports, the Docker resources, the identity
-- sessions and the MCP proxy of a local cloud runtime.
--
-- The program starts one runtime container for each data volume. It remembers the runtimes in the
-- file active-runtime.json, reads its settings from a YAML document, the command line and the
-- environment, plans the host ports of the container, creates, starts, stops and removes a runtime with what belongs to it,
-- gives applications the variables of an identity session, and passes the requests of an MCP client
-- on to the runtime. The modules below translate these parts from the Python code.
--
-- How the parts interact: `load_config` asks the state module for the runtime of a data volume, and
-- takes the image and the names of the container and the network from it where nothing else gives
-- them. The plan of the ports reads the settings that `load_config` returns. A removal takes the data
-- volume from the settings, and checks it as the state module does. The files of the state are shared by threads and processes, which
-- take turns by two locks.
--
--   Prelude        shared names, Boolean tests, lists, signed integers, the exceptions of errors.py,
--                  and rules for what a block of fallible steps returns or raises
--   Text           `str` as code points: strip, lower, upper, split, isdigit and int, with the
--                  characters that Unicode counts as spaces, digits and letters (Text/Tables)
--   Value, Dict    JSON and YAML values, and `dict` in insertion order
--   State          src/localcloud_cli/state.py
--     State          the field checks, `ActiveRuntime`, `default_resource_names`
--     State/Codec    `_decode_active_state` with its three schemas; `payload` is what
--                    `save_active_runtime` hands to the writer
--     State/Store    `load_active_runtime`, `save_active_runtime`, `clear_active_runtime` and
--                    `_write_active_state_file` on a `Home`; a `Faults` says which calls of the
--                    operating system fail
--     State/Lock     `_file_lock`: the steps of many threads in many processes, each of which saves
--                    or clears
--   Config         src/localcloud_cli/config.py
--     Fields         the patterns and `_port`, `_services`, `_environment` and the other field checks
--     Nodes          `_validate_yaml_node` on the graph of the composed nodes, `_read_config`
--     Image          `_image_tag`, `is_estargz_image`, `estargz_image`
--     Slug           `slugify_project_name`
--     Catalog        `_overlay_mapping`, `_effective_service_catalog`, `resolve_docker_socket`
--     Ports          `_service_ports`, `_port_range`, `_mysql_port`
--     Select         `_select_config_path`, `_required_config_path`, `_select_project`
--     Document       `_validate_config_document`, `_reject_flat_config`, `_reject_legacy_config`
--     Settings       the arguments of `load_config` and `LocalCloudConfig`
--     Choices        the choice of each single setting in `load_config`
--     Load           `load_config`: its locals are the steps of one do block
--   Runtime        src/localcloud_cli/docker_runtime.py, the host ports
--     Layout         `_ordinary_tcp_ports`, `_fallback_tcp_ports`, `_mysql_port_pinned`
--     Block          `_available_tcp_port_block`, `_configured_port_ranges`
--     Plan           `_port_plan`
--     Current        `has_canonical_ports`, `_canonical_port_bindings`, `_within_configured_range`
--                    and, in Current/Published, what `_published_ports` reads of a runtime that was
--                    started with given bindings
--   Docker         src/localcloud_cli/docker_runtime.py, the resources
--     Labels         `_classify_resource`, `_base_labels`, `_removal_base_labels`,
--                    `_label_mismatches`
--     Store          the containers, networks and volumes of the daemon, `_get_optional`,
--                    `_remove_verified`; `remove(force=True, v=True)` of a container also takes
--                    its anonymous volumes, but for those that another container mounts
--     Resolve        `resolve` as far as a change asks for it, `_validated_data_mount`,
--                    `_container_network`, `_mutation_target`
--     Calls          the calls of the daemon and the locals of `create`
--     Create         `create`, `_volume_for_create`, `_network_for_create`, `_unstarted_container`,
--                    `_rollback_create`
--     Children       `_owned_children`, `_remove_children`
--     Remove         `remove`, `_stop_container`, `_teardown_network_if_owned`,
--                    `_teardown_volume_if_owned`
--     Lifecycle      `start`, `restart`, `stop`, `_stop_children`
--   Endpoints      src/localcloud_cli/endpoints.py
--     Proxy          `proxy_bypass`
--     Identity       `identity_environment`
--     Render         `render_identity_environment`, `render_identity_stop`, `_shell_value`;
--                    Render/Script is a reader of such scripts, as a POSIX shell reads them
--   Mcp            src/localcloud_cli/mcp_stdio.py
--     Bridge         the state that the threads of the adapter share, one function for each block
--                    that holds its lock; Bridge/Threads has their interleavings
--     Titles         the titles that `_forward` gives to tools
--     Replies        `status`, `_recovery`, `_starting`, `_holds_user_content`
--     Requests       `handle`, `_initialize`, `_list`, `_notification`, `_unavailable`; the waiting
--                    and the forwarding of a request are in Requests/Forward
--
-- Correspondence: a function keeps its Python name without the leading underscore, a class is a
-- record, a raised exception is `raise`. A `HostError` is known by its code; its message and details
-- are not modelled. Numbers are natural numbers, and signed integers where Python's `int` can be
-- negative; none overflows. Mutation of a dict is a new dict.
--
-- Fuel: the printing of n takes n + 1 rounds, and each round divides by ten; the padding of a short
-- project name takes 6 rounds, and each adds four characters to a text that needs six; the walk over
-- the YAML nodes nests one call more than there are nodes, which is enough as no active node is
-- entered twice. All other functions recur on their arguments.
--
-- Parameters: the file system, the process environment, the YAML composer and loader, the hash
-- function, the packaged catalog, the name of the git repository, the NFKD form of a text, which
-- host ports are free, which calls of the Docker daemon fail and the identities that it gives, the
-- checks before and after the run of a container, the check of a container's image, the settings in
-- a container's label, what the runtime answers to the MCP proxy, what its other threads do while a
-- request waits, and the rewriting of endpoints in a result.
--
-- Not modelled: the name of the lock of a data volume, the YAML composer, the hash of the settings,
-- the removal of old host state, the command line, the controller, the drift, the readiness, the logs
-- and the images, the identity relays, the connection
-- of the MCP proxy to the runtime, the reading of root URIs and the MCP SDK, the HTTP client, the
-- rewriting and checking of endpoints in results, the host checks, telemetry, the update notice and
-- the texts of the output.
pub mod Prelude
pub mod Text
pub mod Value
pub mod Dict
pub mod State
pub mod Config
pub mod Runtime
pub mod Endpoints
pub mod Mcp
pub mod Docker
