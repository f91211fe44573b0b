-- ===== src/Grpc/Server/Calls.antt =====
-- The methods of a gRPC server of the gateway: RegisterService and TransparentHandler of
-- pkg/plugins/pool/grpc/handler.go, as `grpcServer` of proxy/grpc.go calls them. `H` is the type of the
-- stream handlers, of which the gateway has one, `handler` of Grpc/Handler.
use rpc_pigeon.Common.{
  ◌≡◌, refl, List, [], ◌∷◌, Bool, true, Option, none, some, map, if◌then◌else◌, if_cases,
}
use rpc_pigeon.Common.Text.{Text, codes, eq_text}

-- `grpc.StreamDesc`
pub record StreamDesc (H : Type 0) : Type 0 where
  pub stream_name : Text
  pub handler : H
  pub server_streams : Bool
  pub client_streams : Bool

-- `grpc.ServiceDesc`
pub record ServiceDesc (H : Type 0) : Type 0 where
  pub service_name : Text
  pub streams : List (StreamDesc H)

module _ {H : Type 0} where
  abbrev pub stream_desc : H → Text → StreamDesc H
  stream_desc streamer m = record {
    stream_name = m;
    handler = streamer;
    server_streams = true;
    client_streams = true;
  }

  -- `RegisterService`: what it registers with the server.
  unfoldable pub register_service : H → Text → List Text → ServiceDesc H
  register_service streamer service_name method_names = record {
    service_name = service_name;
    streams = map (stream_desc streamer) method_names;
  }

  -- A server of `grpcServer`: its service, and the handler of `UnknownServiceHandler`.
  unfoldable pub proxy_services : H → ServiceDesc H × H
  unfolding register_service
  proxy_services streamer = (
    register_service streamer (codes "PingEmpty")
        (codes "Ping" ∷ codes "PingError" ∷ codes "PingList" ∷ []),
    streamer,
  )

  -- As gRPC documents it: a method that the service has goes to its handler, any other one to the handler
  -- of the unknown services.
  unfoldable pub find_stream : List (StreamDesc H) → Text → Option H
  find_stream [] m = none
  find_stream (d ∷ ds) m = if eq_text d.stream_name m then some d.handler else find_stream ds m

  unfoldable pub dispatch : ServiceDesc H × H → (service method : Text) → H
  unfolding find_stream
  dispatch (desc, unknown) service method =
      if eq_text desc.service_name service
      then (elim (find_stream desc.streams method) [ some h ↦ h | none ↦ unknown ])
      else unknown

  find_stream-map :
      (h : H) (ms : List Text) (m : Text)
      → (elim (find_stream (map (stream_desc h) ms) m) [ some k ↦ k | none ↦ h ]) ≡ h
  unfolding find_stream
  find_stream-map h [] m = refl
  find_stream-map h (n ∷ ms) m =
      if_cases (λ (o : Option H). (elim o [ some k ↦ k | none ↦ h ]) ≡ h) (eq_text n m) (some h)
        (find_stream (map (stream_desc h) ms) m) (λ e. refl) (λ e. find_stream-map h ms m)

  -- Every call of a server of the gateway goes to the one handler, whatever its service and method.
  dispatch-proxy_services :
      (h : H) (service method : Text) → dispatch (proxy_services h) service method ≡ h
  unfolding dispatch proxy_services register_service
  dispatch-proxy_services h service method =
      if_cases (λ x. x ≡ h) (eq_text (codes "PingEmpty") service) _ h
        (λ e. find_stream-map h (codes "Ping" ∷ codes "PingError" ∷ codes "PingList" ∷ []) method)
        (λ e. refl)
