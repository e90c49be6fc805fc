-- ===== src/Cluster/Config.antt =====
-- infrastructure/providers/clickhouse_cluster.py: the files that the containers of a cluster mount.
use dbwarden_harness.Base.{String, ◌<>◌}

pub keeper_config : String
keeper_config =
    "<clickhouse>\n" <> "  <listen_host>0.0.0.0</listen_host>\n" <> "  <logger>\n"
    <> "    <level>information</level>\n"
    <> "    <log>/var/log/clickhouse-keeper/clickhouse-keeper.log</log>\n"
    <> "    <errorlog>/var/log/clickhouse-keeper/clickhouse-keeper.err.log</errorlog>\n"
    <> "    <size>100M</size>\n" <> "    <count>3</count>\n" <> "  </logger>\n"
    <> "  <max_connections>4096</max_connections>\n" <> "  <keeper_server>\n"
    <> "    <tcp_port>9181</tcp_port>\n" <> "    <server_id>1</server_id>\n"
    <> "    <log_storage_path>/var/lib/clickhouse/coordination/logs</log_storage_path>\n"
    <> "    <snapshot_storage_path>/var/lib/clickhouse/coordination/snapshots</snapshot_storage_path>\n"
    <> "    <coordination_settings>\n"
    <> "      <operation_timeout_ms>10000</operation_timeout_ms>\n"
    <> "      <min_session_timeout_ms>10000</min_session_timeout_ms>\n"
    <> "      <session_timeout_ms>100000</session_timeout_ms>\n" <> "    </coordination_settings>\n"
    <> "    <raft_configuration>\n" <> "      <server>\n" <> "        <id>1</id>\n"
    <> "        <hostname>localhost</hostname>\n" <> "        <port>9234</port>\n"
    <> "      </server>\n" <> "    </raft_configuration>\n" <> "  </keeper_server>\n"
    <> "</clickhouse>\n"

-- The user and the password are "clickhouse".
pub cluster_config : String → String
cluster_config replica_name =
    "<clickhouse>\n" <> "  <remote_servers>\n" <> "    <harness_cluster>\n" <> "      <shard>\n"
    <> "        <internal_replication>true</internal_replication>\n" <> "        <replica>\n"
    <> "          <host>ch-node1</host>\n" <> "          <port>9000</port>\n"
    <> "          <user>clickhouse</user>\n" <> "          <password>clickhouse</password>\n"
    <> "        </replica>\n" <> "        <replica>\n" <> "          <host>ch-node2</host>\n"
    <> "          <port>9000</port>\n" <> "          <user>clickhouse</user>\n"
    <> "          <password>clickhouse</password>\n" <> "        </replica>\n" <> "      </shard>\n"
    <> "    </harness_cluster>\n" <> "  </remote_servers>\n" <> "  <macros>\n"
    <> "    <shard>01</shard>\n" <> "    <replica>" <> replica_name <> "</replica>\n"
    <> "  </macros>\n" <> "  <zookeeper>\n" <> "    <node>\n" <> "      <host>ch-keeper</host>\n"
    <> "      <port>9181</port>\n" <> "    </node>\n" <> "  </zookeeper>\n" <> "</clickhouse>\n"
