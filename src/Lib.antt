-- ===== src/Lib.antt =====
-- Verification of the BrickStor CSI driver, a Kubernetes storage driver for BrickStor servers.
--
-- A driver process serves a controller, a node and an identity service over one configuration. The
-- controller keeps a map of resolvers, one for each configured BrickStor, standalone or a cluster. A
-- resolver asks its providers, one for each server, for a dataset; a provider makes REST calls. A
-- handler first refreshes the configuration, rebuilds the map if the file has changed, then resolves a
-- volume to a provider, and calls it.
--
-- Where the parts are modelled:
--   Base              texts as lists of bytes (Strings), int64 (Int), Go's results and effects
--                     (Effects), path.Join and filepath.Clean for the paths used (FilePaths)
--   Strconv           ParseInt, ParseUint and FormatInt in base 10
--   Rest.Model, .Api  pkg/rest/model.go and the filter of api.go; the round trips below the calls are
--                     the record Transport, which the parts above take as a parameter
--   Rest.Endpoints    the calls of api.go over Post and Get of one client, as a Transport
--   Rest.Client       pkg/rest/client.go and auth.go: the token of a client (Login), createRequest,
--                     Post and Get (Calls), over the record Net for net/http, encoding/json, golang-jwt
--                     and the clock
--   Rest.Duration     pkg/rest/jsonduration.go; float64 is the record Floats
--   Bsr.Provider      pkg/bsr/provider.go: newProvider, ProviderInterface
--   Bsr.Read, .Api    pkg/bsr/api.go: the provider's methods and how answers are read
--   Bsr.Resolver      pkg/bsr/resolver.go: Resolve, ResolveByAddress, NewResolver
--   Config            pkg/config/config.go: LookupNode, NodeNames (Nodes), validate (Validate), Refresh
--                     (Refresh), New with the search for the file (Find), over the record Files, a parameter
--                     for os, ioutil and package yaml, and a directory tree
--   Driver.VolumeId   ParseVolumeID of pkg/driver/utils.go
--   Driver.State      the state of a process, newResolverMap of utils.go and both refreshConfig
--   Driver.Csi        the fields of the CSI messages that are read or set
--   Driver.Paging     getPagingValues and the cut of one page, of pkg/driver/controllerServer.go
--   Driver.Controller controllerServer.go: resolveBSR (Resolve), CreateVolume (Volumes, with Create),
--                     DeleteVolume, ControllerExpandVolume, ValidateVolumeCapabilities (Manage),
--                     CreateSnapshot, DeleteSnapshot (Snapshots), ListVolumes, ListSnapshots,
--                     GetCapacity and the choice of a zone (Capabilities)
--   Driver.Node       nodeServer.go: the options of a mount (Options), the mount itself and the shares
--                     before it (Mount), resolveBSR and the start of a handler (Resolve),
--                     NodePublishVolume, NodeUnpublishVolume, NodeGetVolumeStats; package mount and
--                     package os are the record Host, a parameter
--   Driver.Identity   pkg/driver/identityServer.go, and NodeGetInfo
--   Driver.Role       pkg/driver/role.go
--   Driver.Process    Run of pkg/driver/driver.go up to Serve, and main of cmd/main.go behind the
--                     command line; net/url, net and the socket file are the record Sockets
--   Tests             concrete inputs
--
-- A handler is a function from the state to an outcome and a state: ok with a value, err with a Go
-- error, or panic for a nil dereference. The world below, the servers and the file system, is a type
-- parameter W that only the parameters read and change, so nothing is assumed about the servers. A Go
-- map is an association list whose order stands for the order of a range over it. The loops run over
-- lists; the waits of ten seconds and the attempts of a mount count down from ten, as in the source,
-- and the decimals of a duration from six. One definition runs on fuel: the decimal digits of a number,
-- with one more than the number, of which each digit uses one.
-- What `fmt.Sprintf` makes of a text passed as a format, the texts of gRPC errors and the names of
-- access modes are fields of the record Platform.
--
-- Not modelled: logging, locking (a handler runs alone), the gRPC server and its interceptor, the
-- command line and the manual test programs of cmd/main.go, the tuning of the HTTP transport, and of
-- the REST model pools, holds, the fields of a snapshot that nothing reads, and nil entries in a list of
-- snapshots.
pub mod Base
pub mod Strconv
pub mod Rest
pub mod Bsr
pub mod Config
pub mod Driver
pub mod Tests
