-- ===== src/VrcpSocket/Packets.antt =====
-- The packets of vrcp.h in the reception buffer of vrcp_socket.cpp.
