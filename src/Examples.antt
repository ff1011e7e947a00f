-- ===== src/Examples.antt =====
-- Concrete inputs at which the theorems apply.
mod Stores
mod Loaded
mod Http
mod Server
mod Requests
mod ClientCalls
mod Device
mod Loading
mod RdmaHttp
mod Zcopy
mod Listening
