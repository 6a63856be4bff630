-- ===== src/Handlers/Nested.antt =====
-- The order of the handlers of api/server/server_middleware.go.
use libstorage.Base.{List, [], ◌∷◌, ◌++◌, ◌≡◌, refl, ◌∙◌, ap}
use libstorage.Handlers.{ApiFunc, Middleware, reversed, wrap_each, handle_with_middleware}

module _ {C S : Type 0} where
  -- The first handler of the list is the outermost one.
  abbrev pub nested : List (Middleware C S) → ApiFunc C S → ApiFunc C S
  nested [] handler = handler
  nested (m ∷ ms) handler = m (nested ms handler)

  wrap_each-append :
      (ms : List (Middleware C S)) (m : Middleware C S) (handler : ApiFunc C S)
      → wrap_each (ms ++ m ∷ []) handler ≡ m (wrap_each ms handler)
  unfolding wrap_each
  wrap_each-append [] m handler = refl
  wrap_each-append (n ∷ ms) m handler = wrap_each-append ms m (n handler)

  wrap_each-reversed :
      (ms : List (Middleware C S)) (handler : ApiFunc C S)
      → wrap_each (reversed ms) handler ≡ nested ms handler
  unfolding reversed wrap_each
  wrap_each-reversed [] handler = refl
  wrap_each-reversed (m ∷ ms) handler =
      wrap_each-append (reversed ms) m handler ∙ ap m (wrap_each-reversed ms handler)

  nested-append :
      (ms ns : List (Middleware C S)) (handler : ApiFunc C S)
      → nested ms (nested ns handler) ≡ nested (ms ++ ns) handler
  nested-append [] ns handler = refl
  nested-append (m ∷ ms) ns handler = ap m (nested-append ms ns handler)

  -- A request passes through the handlers of the server in the order in which they were added, then
  -- through those of the route in theirs, and then reaches the handler of the route.
  pub handle_with_middleware-nested :
      (global route : List (Middleware C S)) (handler : ApiFunc C S)
      → handle_with_middleware global route handler ≡ nested (global ++ route) handler
  unfolding handle_with_middleware
  handle_with_middleware-nested global route handler =
      wrap_each-reversed global (wrap_each (reversed route) handler)
      ∙ ap (nested global) (wrap_each-reversed route handler)
      ∙ nested-append global route handler
