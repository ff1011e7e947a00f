-- ===== src/ZcopyServer/Stores.antt =====
-- internal/s3rdmaserver/store/store.go as the store of internal/s3rdmaserver/zcopy/service.go
use rdma_demo.RdmaStore.{MemoryStore, create_bucket, get_object}
use rdma_demo.RdmaStore.Reads.{get_object-create_bucket}
use rdma_demo.ZcopyServer.Handlers.{ObjectStore}

abbrev pub memory_store_api : ObjectStore MemoryStore
memory_store_api = record {
  create_bucket = create_bucket;
  get_object = get_object;
  get_object-create_bucket = get_object-create_bucket;
}
