-- ===== src/ZcopyProto/Codec.antt =====
-- pkg/rdma/zcopyproto/protocol.go: Encode and Decode
