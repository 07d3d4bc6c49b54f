-- ===== src/Tcp.antt =====
-- Connections of muduo/net (under Linux多线程服务端编程/muduo/muduo/net): `Channel`, `TcpConnection`,
-- `Connector` and `TcpServer`.
pub mod Acceptor
pub mod Channel
pub mod Client
pub mod Connection
pub mod Connector
pub mod Server
